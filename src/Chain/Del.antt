-- ===== src/Chain/Del.antt =====
-- A removal at the head reaches every server of the chain.
use kv_storage_service.Common.{ℕ, zero, suc, ap, ◌∙◌, ◌≡◌, refl, Option, none, some, arith}
use kv_storage_service.Machine.{Heap, is_null}
use kv_storage_service.Text.{Str}
use kv_storage_service.Table.Hash.{IsPlain}
use kv_storage_service.Table.View.{Contents, view, update}
use kv_storage_service.Stub.{rtable_del, exchange, accepted, key_message}
use kv_storage_service.Skeleton.{Outside}
use kv_storage_service.Invoke.Shared.{counting, left}
use kv_storage_service.Invoke.{forward_del}
use kv_storage_service.Invoke.Del.{del_message, del_reply, invoke_del_lem}
use kv_storage_service.RwLock.{write_waits}
use kv_storage_service.Chain.{Chain, Fits, carried, serve, Tail, Ready}

module _ (clock : Outside) (k : Str) (p : IsPlain k) (asks : Fits clock (del_message k)) where
  -- A chain of at most n servers that removes the key, and the reply that it gives.
  abbrev Drops : (m n : ℕ) → Contents → Chain n → Heap → Type 0
  Drops m n f c h =
      (c' : Chain n) × (h' : Heap) × (serve n clock c (del_message k) h
        ≡ some ((some (del_reply k (f k)), c'), h'))
      × Ready m n (update f k none) clock c'
      × (h'.answers ≡ h.answers)

  forward_del_lem :
      (m n : ℕ) (f : Contents) (next : Option (Chain n)) (h : Heap)
      → ((c : Chain n) (h' : Heap) → Ready (suc m) n f clock c → Drops m n f c h')
      → Tail (Ready (suc m) n f clock) next
      → (after : Option (Chain n)) × (h' : Heap) × (forward_del (serve n clock) next (some k) h
          ≡ some (after, h'))
        × (h'.answers ≡ h.answers)
        × Tail (Ready m n (update f k none) clock) after
  unfolding forward_del
  forward_del_lem m n f none h drops r = (none, h, refl, refl, tt)
  forward_del_lem m n f (some c) h drops r =
      let (c', h', run, agree, calm) = drops c h r in
      (
        some c',
        h',
        unfold rtable_del exchange accepted key_message in (ground (arith, run)),
        calm,
        agree,
      )

  -- For an ASCII key whose characters add up to an int, of which the request and the reply have less
  -- than 64 KiB, where each server has a valid table with room for m + 1 more entries, statistics
  -- with room for as many operations, no one inside its lock, and the same contents as the others: a
  -- removal at the head of the chain reaches every server, and calls no malloc. The head answers
  -- with success where the key was stored and with the error where it was not, all tables stay
  -- valid, and the servers still have the same contents, those before without the key, room for m
  -- more, and locks that no one is inside.
  pub serve-del :
      (m n : ℕ) (f : Contents) (c : Chain n) (h : Heap)
      → Fits clock (del_reply k (f k))
      → Ready (suc m) n f clock c
      → (c' : Chain n) × (h' : Heap) × (serve n clock c (del_message k) h
          ≡ some ((some (del_reply k (f k)), c'), h'))
        × Ready m n (update f k none) clock c'
        × (h'.answers ≡ h.answers)
  unfolding serve carried
  serve-del m zero f c h answers r = absurd r
  serve-del m (suc n) f s h answers (bs, e, t, same, room, budget, idle, rest) =
      let (s', after, h', run, holds, valid, reads, small, stats, lock, calm, agree) =
        invoke_del_lem (serve n clock) (Tail (Ready m n (update f k none) clock)) clock s bs k h e
          idle t p (counting budget)
          (λ h₁.
            forward_del_lem m n f s.next_server h₁ (λ c h'. serve-del m n f c h' answers) rest) in
      (
        s',
        h',
        ground (arith, run, same k, answers),
        (
          after,
          holds,
          valid,
          (λ q. ground (arith, reads q, same q)),
          omega (arith, small),
          left budget (is_null (view bs k)) stats,
          ap write_waits lock ∙ idle,
          agree,
        ),
        calm,
      )
