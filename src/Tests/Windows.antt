-- ===== src/Tests/Windows.antt =====
-- A put between the copy of the table and the connection.
use kv_storage_service.Common.{◌≡◌, refl, some, [], ◌∷◌, pos, arith}
use kv_storage_service.Machine.{Heap}
use kv_storage_service.Table.View.{view, total}
use kv_storage_service.Table.Listing.{all_items}
use kv_storage_service.Message.{op_put, ct_none}
use kv_storage_service.Skeleton.{Server, accept}
use kv_storage_service.Invoke.Shared.{put_message}
use kv_storage_service.Invoke.Get.{get_message, get_reply}
use kv_storage_service.Chain.{Chain, serve, serve_last, Ready}
use kv_storage_service.RwLock.{write_waits}
use kv_storage_service.Address.{Rtable}
use kv_storage_service.Address.Connect.{address_of}
use kv_storage_service.Joining.{start_server}
use kv_storage_service.Joining.Replica.{over}
use kv_storage_service.Joining.Window.{before, put_lost}
use kv_storage_service.Tests.Chains.{clock, last, counters-IsCounting, counters-Budget}
use kv_storage_service.Tests.Joins.{
  host, here, here-Reaches, find_successor-last, find_antecessor-last,
}
use kv_storage_service.Tests.Members.{nodes, node2, node3}
use kv_storage_service.Tests.Tables.{
  fresh, ab, ab-IsPlain, one_entry, one_entry-IsTable, one_entry-room,
}

pub last-Ready : Ready 1 1 (view one_entry) clock last
unfolding write_waits
last-Ready = (
  one_entry,
  refl,
  one_entry-IsTable,
  (λ q. refl),
  (unfold total in omega arith),
  counters-Budget 1 (omega arith),
  refl,
  tt,
)

put_lost_example :
    (t : Server (Rtable (Chain 1))) × (h₁ : Heap) × (p' : Chain 1) × (h₂ : Heap) × (c : Chain 2)
    × (h₃ : Heap) × (start_server here
          (λ path. some (address_of host 8080))
          (over 1 clock)
          (λ n. n)
          (pos 4)
          node3
          nodes
          fresh
        ≡ some (t, h₁))
    × (serve 1 clock last (put_message ab (9 ∷ [])) h₁
        ≡ some ((some (accept (put_message ab (9 ∷ [])) op_put ct_none), p'), h₂))
    × (serve_last 2 clock (before 0 p' t) (get_message ab) h₂
        ≡ some ((some (get_reply (get_message ab) (view one_entry ab)), c), h₃))
put_lost_example =
    put_lost 0 clock here (λ path. some (address_of host 8080)) (λ n. n) 4 node3 node2 host nodes
      8080 0 last last one_entry ab (9 ∷ []) fresh (omega arith) find_successor-last
      find_antecessor-last refl here-Reaches refl one_entry-IsTable
      (unfold all_items in ((omega arith, omega arith), tt)) counters-IsCounting (omega arith)
      (omega arith) one_entry-room refl refl last-Ready ab-IsPlain (omega arith) (omega arith)
      (omega arith) (omega arith) (omega arith) (omega arith) refl
