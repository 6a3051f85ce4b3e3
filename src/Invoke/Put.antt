-- ===== src/Invoke/Put.antt =====
-- OP_PUT of source/server_skeleton.c.
use kv_storage_service.Common.{suc, false, ◌<◌, ◌≤◌, ◌≡◌, Option, some, pos, length, arith}
use kv_storage_service.Machine.{Heap, M, IsAmple, grown, int_max, free, released}
use kv_storage_service.Text.{Str}
use kv_storage_service.Block.{Bytes}
use kv_storage_service.LinkedList.Items.{block_of}
use kv_storage_service.Table.Hash.{IsPlain}
use kv_storage_service.Table.View.{Buckets, table_of, view, update, total, IsTable}
use kv_storage_service.Table.Put.{table_put-Put}
use kv_storage_service.RwLock.{write_waits, start_write, end_write}
use kv_storage_service.Message.{MessageT, op_put, ct_none}
use kv_storage_service.Skeleton.{Server, Outside, accept}
use kv_storage_service.Invoke.{forward_put, invoke_put, dispatch, invoke}
use kv_storage_service.Invoke.Shared.{
  IsCounting, counted, count_operation_lem, put_message, entry_t, end_write-start_write,
  block_create_lem,
}

module _ {Net : Type 0} (network_send_receive : Net → MessageT → M (Option MessageT × Net)) where
  -- Where passing the request on leaves the rest of the chain in P.
  pub invoke_put_lem :
      (P : Option Net → Type 0) (clock : Outside) (s : Server Net) (bs : Buckets) (k : Str)
      (v : Bytes) (h : Heap)
      → s.table ≡ some (table_of bs)
      → write_waits s.lock ≡ false
      → IsTable bs
      → IsPlain k
      → 0 < length v
      → length v ≤ int_max
      → total bs < int_max
      → IsAmple h
      → (c : IsCounting clock s.stats)
      → ((h' : Heap)
          → IsAmple h'
          → (n : Option Net) × (h'' : Heap) × (forward_put network_send_receive s.next_server
                (entry_t k v)
                (some (block_of v))
                h'
              ≡ some (n, h''))
            × IsAmple h''
            × P n)
      → (after : Buckets) × (n : Option Net) × (h' : Heap) × (invoke network_send_receive clock
            (some (put_message k v))
            s
            h
          ≡ some (
            (
              pos 0,
              some (accept (put_message k v) op_put ct_none),
              record s { table = some (table_of after); stats = some (counted c); next_server = n },
            ),
            h',
          ))
        × IsTable after
        × ((q : Str) → view after q ≡ update (view bs) k (some v) q)
        × (total after ≤ suc (total bs))
        × IsAmple h'
        × P n
  unfolding invoke dispatch invoke_put free
  invoke_put_lem P clock s bs k v h e idle t p lt le room full c passes =
      let o = table_put-Put bs t k p v lt room (grown h 1 0) in
      let ran = rw (o.stores full).0 at o.runs in
      let (n, h2, passed, full2, rest) = passes o.heap (o.plenty full) in
      let s' : Server Net = record s {
        table = some (table_of o.after);
        lock = end_write (start_write s.lock);
        next_server = n;
      } in
      (
        o.after,
        n,
        released h2 1,
        ground (
          arith,
          e,
          idle,
          ran,
          passed,
          block_create_lem v h full lt le,
          end_write-start_write s.lock,
          count_operation_lem clock s' c (released h2 1),
        ),
        o.valid,
        (o.stores full).1,
        o.grows,
        full2,
        rest,
      )
