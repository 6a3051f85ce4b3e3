-- ===== src/Chain/Put.antt =====
-- A write at the head reaches every server of the chain.
use kv_storage_service.Common.{ℕ, zero, suc, ◌<◌, ◌≤◌, ◌≡◌, refl, Option, none, some, length, arith}
use kv_storage_service.Machine.{Heap, IsAmple, grown, int_max, malloc}
use kv_storage_service.Text.{Str}
use kv_storage_service.Block.{Bytes}
use kv_storage_service.Entry.{entry_create}
use kv_storage_service.LinkedList.Items.{block_of}
use kv_storage_service.Table.Hash.{IsPlain}
use kv_storage_service.Table.View.{Contents, table_of, update}
use kv_storage_service.Message.{op_put, ct_none}
use kv_storage_service.Stub.{rtable_put, exchange, accepted, entry_message}
use kv_storage_service.Skeleton.{Outside, accept}
use kv_storage_service.Invoke.{forward_put}
use kv_storage_service.Invoke.Shared.{counted, counting, spent, put_message, entry_t}
use kv_storage_service.Invoke.Put.{invoke_put_lem}
use kv_storage_service.Chain.{Chain, Fits, carried, serve, Tail, Ready}

module _ (clock : Outside) (k : Str) (v : Bytes) (p : IsPlain k) (lt : 0 < length v)
    (le : length v ≤ int_max) (asks : Fits clock (put_message k v))
    (replies : Fits clock (accept (put_message k v) op_put ct_none)) where
  -- A chain of at most n servers that takes the put, and the reply that it gives.
  abbrev Takes : (m n : ℕ) → Contents → Chain n → Heap → Type 0
  Takes m n f c h =
      (c' : Chain n) × (h' : Heap) × (serve n clock c (put_message k v) h
        ≡ some ((some (accept (put_message k v) op_put ct_none), c'), h'))
      × Ready m n (update f k (some v)) clock c'
      × IsAmple h'

  forward_put_lem :
      (m n : ℕ) (f : Contents) (next : Option (Chain n)) (h : Heap)
      → ((c : Chain n) (h' : Heap) → Ready (suc m) n f clock c → IsAmple h' → Takes m n f c h')
      → Tail (Ready (suc m) n f clock) next
      → IsAmple h
      → (after : Option (Chain n)) × (h' : Heap) × (forward_put
            (serve n clock)
            next
            (entry_t k v)
            (some (block_of v))
            h
          ≡ some (after, h'))
        × IsAmple h'
        × Tail (Ready m n (update f k (some v)) clock) after
  unfolding forward_put
  forward_put_lem m n f none h takes r full = (none, h, refl, full, tt)
  forward_put_lem m n f (some c) h takes r full =
      let (c', h', run, agree, full') = takes c (grown h 1 0) r full in
      (
        some c',
        h',
        unfold entry_create malloc rtable_put exchange accepted entry_message in
            (ground (arith, run, full)),
        full',
        agree,
      )

  -- For an ASCII key whose characters add up to an int and a value of 1 to 2^31 - 1 bytes, which make
  -- a request and a reply of less than 64 KiB, where malloc refuses nothing and each server has a
  -- valid table with room for m + 1 more entries, statistics with room for as many operations, no
  -- one inside its lock, and the same contents as the others: a put that the head of the chain takes
  -- is stored by every server of the chain. The head answers with the opcode of success, all tables
  -- stay valid, and the servers still have the same contents, those before the put with the new
  -- value under its key, room for m more, and locks that no one is inside.
  pub serve-put :
      (m n : ℕ) (f : Contents) (c : Chain n) (h : Heap)
      → Ready (suc m) n f clock c
      → IsAmple h
      → (c' : Chain n) × (h' : Heap) × (serve n clock c (put_message k v) h
          ≡ some ((some (accept (put_message k v) op_put ct_none), c'), h'))
        × Ready m n (update f k (some v)) clock c'
        × IsAmple h'
  unfolding serve carried
  serve-put m zero f c h r full = absurd r
  serve-put m (suc n) f s h (bs, e, t, same, room, budget, idle, rest) full =
      let (after, next, h', run, valid, reads, grows, full', agree) =
        invoke_put_lem (serve n clock) (Tail (Ready m n (update f k (some v)) clock)) clock s bs k v
          h e idle t p lt le (omega arith) full (counting budget)
          (λ h₁ full₁. forward_put_lem m n f s.next_server h₁ (serve-put m n f) rest full₁) in
      (
        record s {
          table = some (table_of after);
          stats = some (counted (counting budget));
          next_server = next;
        },
        h',
        ground (arith, run),
        (
          after,
          refl,
          valid,
          (λ q. ground (arith, reads q, same q)),
          omega (arith, grows),
          spent budget,
          idle,
          agree,
        ),
        full',
      )
