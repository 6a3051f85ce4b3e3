-- ===== src/Tests/Leaves.antt =====
-- A server whose next one leaves, and a put after that.
use kv_storage_service.Common.{◌≡◌, refl, none, some, [], ◌∷◌, true, arith}
use kv_storage_service.Machine.{Heap}
use kv_storage_service.Table.View.{table_of, view, total, update}
use kv_storage_service.Message.{op_put, ct_none}
use kv_storage_service.Skeleton.{Server, accept}
use kv_storage_service.Invoke.Shared.{put_message}
use kv_storage_service.Chain.{Chain, serve, Ready}
use kv_storage_service.RwLock.{write_waits}
use kv_storage_service.Address.{Rtable}
use kv_storage_service.Address.Connect.{address_of, connected}
use kv_storage_service.Joining.{child_watcher}
use kv_storage_service.Joining.Leave.{in_chain, leave-put}
use kv_storage_service.Tests.Chains.{clock, counters, free_lock, last, counters-Budget}
use kv_storage_service.Tests.Joins.{host, here, here-Reaches, glibc_usable, glibc_usable-roomy}
use kv_storage_service.Tests.Members.{node1, node2, nodes, find_successor_run}
use kv_storage_service.Tests.Tables.{fresh, ab, ab-IsPlain, one_entry, one_entry-IsTable}
use kv_storage_service.Tests.Windows.{last-Ready}

-- The server is still connected to the one that has left.
abbrev deserted : Server (Rtable (Chain 1))
deserted = record {
  table = some (table_of one_entry);
  stats = some counters;
  lock = free_lock;
  next_server = some (connected host 9090 last);
}

deserted-Ready : Ready 1 2 (view one_entry) clock (in_chain 1 deserted none)
unfolding write_waits
deserted-Ready = (
  one_entry,
  refl,
  one_entry-IsTable,
  (λ q. refl),
  (unfold total in omega arith),
  counters-Budget 1 (omega arith),
  refl,
  tt,
)

leave-put_example :
    (h₁ : Heap) × (child_watcher here
        (λ path. some (address_of host 8080))
        glibc_usable
        true
        true
        (some nodes)
        node1
        deserted.next_server
        fresh
      ≡ some (some (connected host 8080 last), h₁))
    × (c : Chain 2) × (h₂ : Heap) × (serve 2 clock
          (in_chain 1 deserted (some last))
          (put_message ab (9 ∷ []))
          h₁
        ≡ some ((some (accept (put_message ab (9 ∷ [])) op_put ct_none), c), h₂))
    × Ready 0 2 (update (view one_entry) ab (some (9 ∷ []))) clock c
leave-put_example =
    leave-put 1 clock here (λ path. some (address_of host 8080)) glibc_usable glibc_usable-roomy 0
      (view one_entry) node1 node2 host nodes 8080 deserted last ab (9 ∷ []) fresh
      find_successor_run refl here-Reaches
      (record {
        host = host;
        port = 9090;
        fd = last;
        address = refl;
        part = ((omega arith), tt);
        dotted = omega arith;
        number = refl;
        port_lt = omega arith;
        opened = refl;
      })
      deserted-Ready last-Ready ab-IsPlain (omega arith) (omega arith) (omega arith) (omega arith)
      refl
