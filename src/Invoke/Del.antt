-- ===== src/Invoke/Del.antt =====
-- OP_DEL of source/server_skeleton.c.
use kv_storage_service.Common.{
  false, ◌≤◌, ◌≡◌, refl, ◌∙◌, inl, inr, Option, none, some, pos, is_zero, not, if◌then◌else◌,
  Option-cases, arith,
}
use kv_storage_service.Machine.{Heap, M, is_null}
use kv_storage_service.Text.{Str}
use kv_storage_service.Table.Hash.{IsPlain}
use kv_storage_service.Table.View.{Buckets, table_of, view, update, total, IsTable}
use kv_storage_service.Table.Remove.{table_remove-Remove}
use kv_storage_service.RwLock.{write_waits, start_write, end_write}
use kv_storage_service.Message.{MessageT, message_init, op_del, ct_key, ct_none}
use kv_storage_service.Skeleton.{Server, Outside, refuse, accept}
use kv_storage_service.Invoke.{forward_del, invoke_del, dispatch, invoke}
use kv_storage_service.Invoke.Shared.{
  IsCounting, counted, count_operation_lem, end_write-start_write,
}

-- The request to remove k, as `rtable_del` sends it, and the reply where o was stored.
abbrev pub del_message : Str → MessageT
del_message k = record message_init { opcode = op_del; c_type = ct_key; key = some k }

abbrev pub del_reply {ℓ} : {A : Type ℓ} → Str → Option A → MessageT
del_reply k o = if is_null o then refuse (del_message k) else accept (del_message k) op_del ct_none

module _ {Net : Type 0} (network_send_receive : Net → MessageT → M (Option MessageT × Net)) where
  -- Where passing the request on leaves the rest of the chain in P.
  pub invoke_del_lem :
      (P : Option Net → Type 0) (clock : Outside) (s : Server Net) (bs : Buckets) (k : Str)
      (h : Heap)
      → s.table ≡ some (table_of bs)
      → write_waits s.lock ≡ false
      → IsTable bs
      → IsPlain k
      → (c : IsCounting clock s.stats)
      → ((h' : Heap)
          → (n : Option Net) × (h'' : Heap) × (forward_del network_send_receive s.next_server
                (some k)
                h'
              ≡ some (n, h''))
            × (h''.answers ≡ h'.answers)
            × P n)
      → (s' : Server Net) × (after : Buckets) × (h' : Heap) × (invoke network_send_receive clock
            (some (del_message k))
            s
            h
          ≡ some ((pos 0, some (del_reply k (view bs k)), s'), h'))
        × (s'.table ≡ some (table_of after))
        × IsTable after
        × ((q : Str) → view after q ≡ update (view bs) k none q)
        × (total after ≤ total bs)
        × (s'.stats ≡ (if is_null (view bs k) then s.stats else some (counted c)))
        × (s'.lock ≡ s.lock)
        × (h'.answers ≡ h.answers)
        × P s'.next_server
  unfolding invoke dispatch invoke_del
  invoke_del_lem P clock s bs k h e idle t p c passes =
      let o = table_remove-Remove bs t k p h in
      let (n, h2, passed, calm, rest) = passes o.heap in
      let found : is_zero o.result ≡ not (is_null (view bs k)) = rw o.code (ground arith) in
      let s₁ : Server Net = record s {
        table = some (table_of o.after);
        lock = end_write (start_write s.lock);
        next_server = n;
      } in
      elim (Option-cases (view bs k)) [
        | inl nothing ↦ (
          s₁,
          o.after,
          h2,
          ground (arith, e, idle, o.runs, passed, found, nothing),
          refl,
          o.valid,
          o.reads,
          o.shrinks,
          rw nothing refl,
          end_write-start_write s.lock,
          calm ∙ o.calm,
          rest,
        )
        | inr (v, there) ↦ (
          record s₁ { stats = some (counted c) },
          o.after,
          h2,
          ground (arith, e, idle, o.runs, passed, found, there, count_operation_lem clock s₁ c h2),
          refl,
          o.valid,
          o.reads,
          o.shrinks,
          rw there refl,
          end_write-start_write s.lock,
          calm ∙ o.calm,
          rest,
        )
      ]
