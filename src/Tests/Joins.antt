-- ===== src/Tests/Joins.antt =====
-- A server that joins a chain, and one that stands in it.
use kv_storage_service.Common.{
  ℕ, ◌≤◌, ◌+◌, ◌-◌, ◌*◌, ◌/◌, ltb, if◌then◌else◌, true, false, minus_one, ◌≡◌, refl, none, some, [],
  ◌∷◌, pos, arith,
}
use kv_storage_service.Machine.{Heap, IsAmple}
use kv_storage_service.Text.{Str, cmp}
use kv_storage_service.Table.View.{Buckets, table_of, view, total, IsTable}
use kv_storage_service.Table.Listing.{all_items}
use kv_storage_service.Message.{op_gettable}
use kv_storage_service.Stub.{plain_message}
use kv_storage_service.Skeleton.{refuse}
use kv_storage_service.Invoke.{invoke}
use kv_storage_service.Chain.{Chain, serve}
use kv_storage_service.Address.{Internet}
use kv_storage_service.Address.Connect.{address_of, connected, Reaches}
use kv_storage_service.Joining.Start.{start_server-replica}
use kv_storage_service.Invoke.Leak.{invoke_gettable-leak}
use kv_storage_service.RwLock.{write_waits}
use kv_storage_service.Joining.{start_server, set_next_server}
use kv_storage_service.Joining.Successor.{set_next_server-overflow}
use kv_storage_service.Joining.Replica.{over}
use kv_storage_service.Tests.Chains.{clock, last, counters-IsCounting}
use kv_storage_service.Members.{find_successor, closer_after, find_antecessor, closer_before}
use kv_storage_service.Tests.Members.{node1, node2, node3, nodes, find_successor_run}
use kv_storage_service.Tests.Tables.{fresh, one_entry, one_entry-IsTable, one_entry-room}

-- "h"
abbrev pub host : Str
host = 104 ∷ []

-- what glibc gives for a request of n bytes, on 64 bits
abbrev pub glibc_usable : ℕ → ℕ
glibc_usable n = if ltb n 25 then 24 else (n + 23) / 16 * 16 - 8

pub glibc_usable-roomy : (n : ℕ) → n ≤ 16 → 24 ≤ glibc_usable n
glibc_usable-roomy n le = ground arith

-- One place, where the last server of a chain listens.
abbrev pub here : Internet (Chain 1)
here = record {
  Place = Unit;
  socket = some last;
  inet_pton = λ name. some tt;
  connect = λ fd place port. some last;
  close = λ fd. true;
}

pub here-Reaches : Reaches here host 8080 last
here-Reaches = record {
  named = omega arith;
  part = ((omega arith), tt);
  dotted = omega arith;
  port_pos = omega arith;
  port_lt = omega arith;
  fd = last;
  opened = refl;
  place = tt;
  found = refl;
  joined = refl;
}

set_next_server-overflow_example :
    set_next_server here
      (λ path. some (address_of host 8080))
      (λ n. n)
      node1
      nodes
      (some (connected host 8080 last))
      fresh
    ≡ none
set_next_server-overflow_example =
    set_next_server-overflow here (λ path. some (address_of host 8080)) node1 node2 nodes 8080
      (connected host 8080 last) fresh find_successor_run refl

-- The nodes where the last one has just been added.
pub find_successor-last : find_successor node3 nodes none ≡ none
unfolding find_successor closer_after cmp
find_successor-last = refl

pub find_antecessor-last : find_antecessor node3 nodes none ≡ some node2
unfolding find_antecessor closer_before cmp
find_antecessor-last = refl

start_server_example :
    (after : Buckets) × (h' : Heap) × (start_server here
        (λ path. some (address_of host 8080))
        (over 1 clock)
        (λ n. n)
        (pos 4)
        node3
        nodes
        fresh
      ≡ some (
        record {
          table = some (table_of after);
          stats = some (record { n_operations = pos 0; total_time = pos 0; n_clients = pos 0 });
          lock = record { n_readers = pos 0; n_writers = pos 0 };
          next_server = none;
        },
        h',
      ))
    × IsTable after
    × ((q : Str) → view after q ≡ view one_entry q)
    × IsAmple h'
start_server_example =
    start_server-replica 0 clock here (λ path. some (address_of host 8080)) (λ n. n) 4 node3 node2
      host nodes 8080 last one_entry fresh (omega arith) find_successor-last find_antecessor-last
      refl here-Reaches refl one_entry-IsTable
      (unfold all_items in ((omega arith, omega arith), tt)) counters-IsCounting (omega arith)
      (omega arith) one_entry-room refl

-- The second call of malloc is refused.
abbrev one_granted : Heap
one_granted = record { answers = true ∷ false ∷ []; allocs = 0; frees = 0 }

invoke_gettable-leak_example :
    (s' : Chain 1) × (h' : Heap) × (invoke
        (serve 0 clock)
        clock
        (some (plain_message op_gettable))
        last
        one_granted
      ≡ some ((minus_one, some (refuse (plain_message op_gettable)), s'), h'))
    × (s'.lock.n_readers ≡ pos 1)
    × (write_waits s'.lock ≡ true)
invoke_gettable-leak_example =
    invoke_gettable-leak (serve 0 clock) clock last one_entry 0 one_granted [] refl
      (unfold total in omega arith) one_entry-room refl refl
