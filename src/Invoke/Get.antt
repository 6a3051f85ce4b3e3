-- ===== src/Invoke/Get.antt =====
-- OP_GET of source/server_skeleton.c.
use kv_storage_service.Common.{
  if◌then◌else◌, ◌≡◌, refl, inl, inr, Option, none, some, pos, length, take-length, Option-cases,
  arith,
}
use kv_storage_service.Machine.{is_null, Heap, M, IsAmple, grown, asked, malloc, free, released}
use kv_storage_service.Text.{Str}
use kv_storage_service.Block.{Bytes, block_destroy}
use kv_storage_service.LinkedList.Items.{block_of}
use kv_storage_service.Table.Hash.{IsPlain}
use kv_storage_service.Table.View.{Buckets, table_of, view, IsTable}
use kv_storage_service.Table.Lookup.{table_get-view}
use kv_storage_service.Message.{MessageT, message_init, op_get, ct_key, ct_value}
use kv_storage_service.Skeleton.{Server, Outside, refuse, accept}
use kv_storage_service.Invoke.{reply_value, invoke_get, read_done, reading, dispatch, invoke}
use kv_storage_service.Invoke.Shared.{IsCounting, counted, count_operation_lem, end_read-start_read}

-- The request for the value of k, as `rtable_get` sends it, and the reply where o is stored.
abbrev pub get_message : Str → MessageT
get_message k = record message_init { opcode = op_get; c_type = ct_key; key = some k }

abbrev pub get_reply : MessageT → Option Bytes → MessageT
get_reply msg none = refuse msg
get_reply msg (some v) = record (accept msg op_get ct_value) {
  value = record { len = length v; contents = some v };
}

module _ {Net : Type 0} where
  reply_value_lem :
      (clock : Outside) (msg : MessageT) (v : Bytes) (s : Server Net) (h : Heap)
      → IsAmple h
      → (c : IsCounting clock s.stats)
      → reply_value clock msg (block_of v) s h
        ≡ some (
          (pos 0, get_reply msg (some v), record s { stats = some (counted c) }),
          released (released (asked h) 1) 1,
        )
  unfolding reply_value malloc block_destroy free
  reply_value_lem clock msg v s h full c = ground (
    arith,
    full,
    take-length v,
    count_operation_lem clock s c (released (released (asked h) 1) 1),
  )

module _ {Net : Type 0} (network_send_receive : Net → MessageT → M (Option MessageT × Net)) where
  -- On a server with a valid table and room in its statistics, for an ASCII key whose characters
  -- add up to an int, where nothing is refused, OP_GET replies with exactly the bytes that the
  -- table has under the key, or with the error where it has none; the table, the lock and the next
  -- server stay as they were, and the operation is counted where the key is stored.
  pub invoke_get_lem :
      (clock : Outside) (s : Server Net) (bs : Buckets) (k : Str) (h : Heap)
      → s.table ≡ some (table_of bs)
      → IsTable bs
      → IsPlain k
      → IsAmple h
      → (c : IsCounting clock s.stats)
      → (s' : Server Net) × (h' : Heap) × (invoke network_send_receive clock
            (some (get_message k))
            s
            h
          ≡ some ((pos 0, some (get_reply (get_message k) (view bs k)), s'), h'))
        × (s'.table ≡ s.table)
        × (s'.lock ≡ s.lock)
        × (s'.next_server ≡ s.next_server)
        × (s'.stats ≡ (if is_null (view bs k) then s.stats else some (counted c)))
        × IsAmple h'
  unfolding invoke dispatch invoke_get block_destroy
  invoke_get_lem clock s bs k h e t p full c =
      let run = table_get-view bs t k p h full in
      elim (Option-cases (view bs k)) [
        | inl nothing ↦ (
          read_done (reading s),
          grown h 0 0,
          ground (arith, e, run, nothing),
          refl,
          end_read-start_read s.lock,
          refl,
          rw nothing refl,
          full,
        )
        | inr (v, there) ↦
            let s₁ : Server Net = read_done (reading s) in
            (
              record s₁ { stats = some (counted c) },
              released (released (asked (grown h 2 0)) 1) 1,
              ground (
                arith,
                e,
                run,
                there,
                reply_value_lem clock (get_message k) v s₁ (grown h 2 0) full c,
              ),
              refl,
              end_read-start_read s.lock,
              refl,
              rw there refl,
              rw full refl,
            )
      ]
