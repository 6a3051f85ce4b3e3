-- ===== src/Chain/Last.antt =====
-- A request that only reads, at the last server of a chain.
use kv_storage_service.Common.{
  ℕ, zero, suc, ◌+◌, ◌≤◌, ◌≡◌, ap, ◌∙◌, some, pos, Option-cases, inl, inr, arith,
}
use mathlib.Core.Path.{subst}
use kv_storage_service.Machine.{Heap, IsAmple, int_max}
use kv_storage_service.Text.{Str}
use kv_storage_service.Table.View.{Buckets, Contents, table_of, view, total, IsTable}
use kv_storage_service.Message.{MessageT}
use kv_storage_service.Skeleton.{Outside}
use kv_storage_service.Invoke.{invoke}
use kv_storage_service.Invoke.Shared.{Budget, saved}
use kv_storage_service.RwLock.{write_waits}
use kv_storage_service.Chain.{Chain, Fits, carried, serve, serve_last, Tail, Ready}

module _ (clock : Outside) (msg : MessageT) (m : ℕ) (f : Contents) (P : MessageT → Type 0)
    (asks : Fits clock msg) where
  -- A server with the contents f answers the request by a reply in P, and keeps its table.
  abbrev pub Reads : Type 0
  Reads =
      (n : ℕ) (s : Chain (suc n)) (bs : Buckets) (h : Heap)
      → s.table ≡ some (table_of bs)
      → IsTable bs
      → ((q : Str) → view bs q ≡ f q)
      → total bs + suc m ≤ int_max
      → Budget clock (suc m) s.stats
      → IsAmple h
      → (reply : MessageT) × (s' : Chain (suc n)) × (h' : Heap) × (invoke (serve n clock) clock
            (some msg) s h
          ≡ some ((pos 0, some reply, s'), h'))
        × P reply
        × Fits clock reply
        × (s'.table ≡ s.table)
        × (s'.next_server ≡ s.next_server)
        × (s'.lock ≡ s.lock)
        × Budget clock m s'.stats
        × IsAmple h'

  pub serve_last-reads :
      (n : ℕ) (c : Chain n) (h : Heap)
      → Reads
      → Ready (suc m) n f clock c
      → IsAmple h
      → (reply : MessageT) × (c' : Chain n) × (h' : Heap) × (serve_last n clock c msg h
          ≡ some ((some reply, c'), h'))
        × P reply
        × Ready m n f clock c'
        × IsAmple h'
  unfolding serve_last serve carried
  serve_last-reads zero c h reads r full = absurd r
  serve_last-reads (suc n) s h reads (bs, e, t, same, room, budget, idle, rest) full =
      elim (Option-cases s.next_server) [
        | inl last ↦
            let (reply, s', h', run, right, fits, table, next, lock, left, full') =
              reads n s bs h e t same room budget full in
            (
              reply,
              s',
              h',
              ground (arith, last, run),
              right,
              (
                bs,
                table ∙ e,
                t,
                same,
                omega (arith, room),
                left,
                ap write_waits lock ∙ idle,
                rw (next, last) tt,
              ),
              full',
            )
        | inr (next, there) ↦
            let (reply, c', h', run, right, ready, full') =
              serve_last-reads n next h reads (subst (Tail (Ready (suc m) n f clock)) there rest)
                full in
            (
              reply,
              record s { next_server = some c' },
              h',
              ground (arith, there, run),
              right,
              (bs, e, t, same, omega (arith, room), saved budget, idle, ready),
              full',
            )
      ]
