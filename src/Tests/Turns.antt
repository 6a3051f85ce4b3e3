-- ===== src/Tests/Turns.antt =====
-- `thread_client` for a client that puts a value and reads it.
use kv_storage_service.Common.{
  ℕ, zero, suc, ◌≡◌, refl, ◌+ℤ◌, ◌-ℤ◌, ◌*ℤ◌, Option, none, some, List, [], ◌∷◌, ◌++◌, ◌∙◌, ap,
  if◌then◌else◌, ◌==◌, pos, arith,
}
use kv_storage_service.Machine.{Heap, IsAmple, is_null}
use kv_storage_service.Table.View.{Buckets, IsTable, table_of, view, update}
use kv_storage_service.Stats.{Stats}
use kv_storage_service.Message.{MessageT, op_put, ct_none}
use kv_storage_service.Skeleton.{interval, accept}
use kv_storage_service.Invoke.{invoke, forward_put}
use kv_storage_service.Invoke.Put.{invoke_put_lem}
use kv_storage_service.Invoke.Get.{get_message, get_reply, invoke_get_lem}
use kv_storage_service.RwLock.{write_waits}
use kv_storage_service.Text.{Str, cmp}
use kv_storage_service.Transfer.Reliable.{Takes, Gives}
use kv_storage_service.Invoke.Shared.{IsCounting, counted, put_message}
use kv_storage_service.Transfer.{Outcome}
use kv_storage_service.Transfer.Writes.{Wrote}
use kv_storage_service.Transfer.Reads.{Got}
use kv_storage_service.Serving.{thread_client}
use kv_storage_service.Serving.Session.{
  Request, HasClients, replies, with_clients, thread_client_lem,
}
use kv_storage_service.Chain.{Chain, serve}
use kv_storage_service.Tests.Chains.{clock, counters, last}
use kv_storage_service.Tests.Frames.{put_byte, get_byte, put_byte-Wrote, get_byte-Got, pack_opcode}
use kv_storage_service.Tests.Tables.{
  fresh, ab, ab-IsPlain, one_entry, one_entry-IsTable, one_entry-room,
}

-- A socket is the bytes that come, and those that are sent; a byte goes at a time.
pub record Duplex : Type 0 where
  pub coming : List ℕ
  pub gone : List ℕ

abbrev pub say : Duplex → List ℕ → Outcome ℕ × Duplex
say w buf = ((put_byte w.gone buf).0, record w { gone = (put_byte w.gone buf).1 })

abbrev pub hear : Duplex → ℕ → Outcome (List ℕ) × Duplex
hear w len = ((get_byte w.coming len).0, record w { coming = (get_byte w.coming len).1 })

pub say-Wrote : (w : Duplex) (buf : List ℕ) → Wrote (λ v. v.gone) (λ _. 0) w buf (say w buf)
say-Wrote w [] = put_byte-Wrote w.gone []
say-Wrote w (b ∷ bs) = put_byte-Wrote w.gone (b ∷ bs)

hear_first-Got :
    (w : Duplex) (len : ℕ) (bytes : List ℕ)
    → w.coming ≡ bytes
    → Got (λ v. v.coming) (λ _. 0) w (suc len) (hear w (suc len))
hear_first-Got w len [] e = rw e (omega arith, refl, omega arith)
hear_first-Got w len (b ∷ bs) e = rw e (omega arith, refl, omega arith)

pub hear-Got : (w : Duplex) (len : ℕ) → Got (λ v. v.coming) (λ _. 0) w len (hear w len)
hear-Got w zero = get_byte-Got w.coming zero
hear-Got w (suc len) = hear_first-Got w len w.coming refl

-- The server while the thread runs, and after each of the requests.
abbrev joined : Chain 1
joined = with_clients last counters 2

pub taken_eq : interval clock ≡ pos 100100
unfolding interval ◌+ℤ◌ ◌-ℤ◌ ◌*ℤ◌
taken_eq = refl

abbrev joined_counting : IsCounting clock joined.stats
joined_counting = record {
  operations = 4;
  time = 1000;
  clients = pos 2;
  there = refl;
  operations_lt = omega arith;
  taken = 100100;
  taken_eq = taken_eq;
  time_fits = omega arith;
}

-- The server after the put, with the table bs.
abbrev holding : Buckets → Chain 1
holding bs = record joined {
  table = some (table_of bs);
  stats = some (record { n_operations = pos 5; total_time = pos 101100; n_clients = pos 2 });
}

abbrev holding_counting : (bs : Buckets) → IsCounting clock (holding bs).stats
holding_counting bs = record {
  operations = 5;
  time = 101100;
  clients = pos 2;
  there = refl;
  operations_lt = omega arith;
  taken = 100100;
  taken_eq = taken_eq;
  time_fits = omega arith;
}

abbrev put_ab : MessageT
put_ab = put_message ab (9 ∷ [])

-- The key has been put.
abbrev HasPut : Chain 1 → Type 0
HasPut s =
    (bs : Buckets) × (s ≡ holding bs)
    × IsTable bs
    × ((q : Str) → view bs q ≡ update (view one_entry) ab (some (9 ∷ [])) q)

-- It has then been read.
abbrev HasRead : Chain 1 → Type 0
HasRead s =
    (bs : Buckets) × (s.table ≡ some (table_of bs))
    × ((q : Str) → view bs q ≡ update (view one_entry) ab (some (9 ∷ [])) q)

abbrev asked_put : Request (Chain 0)
asked_put = record {
  bytes = 30 ∷ [];
  msg = put_ab;
  reply = accept put_ab op_put ct_none;
  Leaves = HasPut;
}

abbrev asked_get : Request (Chain 0)
asked_get = record {
  bytes = 31 ∷ [];
  msg = get_message ab;
  reply = get_reply (get_message ab) (some (9 ∷ []));
  Leaves = HasRead;
}

put_answered :
    (h : Heap)
    → IsAmple h
    → (s' : Chain 1) × (h' : Heap) × (invoke (serve 0 clock) clock (some put_ab) joined h
        ≡ some ((pos 0, some asked_put.reply, s'), h'))
      × (HasPut s' × HasClients 2 s')
      × IsAmple h'
unfolding forward_put write_waits
put_answered h full =
    let (bs, n, h', run, valid, reads, grows, full', none_next) =
      invoke_put_lem (serve 0 clock) (λ n. n ≡ none) clock joined one_entry ab (9 ∷ []) h refl refl
        one_entry-IsTable ab-IsPlain (omega arith) (omega arith) one_entry-room full joined_counting
        (λ h₁ full₁. (none, h₁, refl, full₁, refl)) in
    (
      record (holding bs) { next_server = n },
      h',
      run,
      (
        (bs, (λ i. record (holding bs) { next_server = none_next i }), valid, reads),
        (counted joined_counting, (refl, refl)),
      ),
      full',
    )

get_answered :
    (bs : Buckets) (h : Heap)
    → IsTable bs
    → ((q : Str) → view bs q ≡ update (view one_entry) ab (some (9 ∷ [])) q)
    → IsAmple h
    → (s' : Chain 1) × (h' : Heap) × (invoke
          (serve 0 clock)
          clock
          (some (get_message ab))
          (holding bs)
          h
        ≡ some ((pos 0, some asked_get.reply, s'), h'))
      × (HasRead s' × HasClients 2 s')
      × IsAmple h'
unfolding cmp
get_answered bs h valid reads full =
    let (s', h', run, table, lock, next, stats, full') =
      invoke_get_lem (serve 0 clock) clock (holding bs) bs ab h refl valid ab-IsPlain full
        (holding_counting bs) in
    (
      s',
      h',
      run ∙ ap (λ o. some ((pos 0, some (get_reply (get_message ab) o), s'), h')) (reads ab),
      (
        (bs, table, reads),
        (
          counted (holding_counting bs),
          (
            stats
                ∙ ap
                    (λ o.
                      if is_null o
                      then (holding bs).stats
                      else some (counted (holding_counting bs)))
                    (reads ab),
            refl,
          ),
        ),
      ),
      full',
    )

abbrev unpack_byte : List ℕ → Option MessageT
unpack_byte (c ∷ []) = if c == 30 then some put_ab else some (get_message ab)
unpack_byte _ = none

pub say-Takes : (w : Duplex) (b : ℕ) (bs : List ℕ) → Takes (say w (b ∷ bs))
say-Takes w b bs = tt

hear_first-Gives :
    (w : Duplex) (len : ℕ) (bytes : List ℕ) → w.coming ≡ bytes → Gives bytes (hear w (suc len))
hear_first-Gives w len [] e = rw e refl
hear_first-Gives w len (b ∷ bs) e = rw e tt

pub hear-Gives : (w : Duplex) (len : ℕ) → Gives w.coming (hear w (suc len))
hear-Gives w len = hear_first-Gives w len w.coming refl

abbrev wire : Duplex
wire = record { coming = 0 ∷ 1 ∷ 30 ∷ 0 ∷ 1 ∷ 31 ∷ []; gone = [] }

thread_client_example :
    (last_wire : Duplex) × (end : Chain 1) × (stats : Stats) × (h' : Heap) × (thread_client
        (λ w. w)
        say
        pack_opcode
        hear
        unpack_byte
        (serve 0 clock)
        9
        3
        (λ n. clock)
        wire
        last
        fresh
      ≡ some (some (last_wire, with_clients end stats 1), h'))
    × (end.stats ≡ some stats)
    × HasRead end
    × (last_wire.gone ≡ [] ++ replies pack_opcode (asked_put ∷ asked_get ∷ []))
thread_client_example =
    thread_client_lem (λ w. w) (λ _. 0) 0 (λ s. omega arith) (λ w. w.gone) (λ w. w.coming) say hear
      say-Wrote hear-Got say-Takes hear-Gives (λ s. refl) (λ s. refl) (λ s buf. refl)
      (λ s len. refl) pack_opcode unpack_byte (serve 0 clock) 9 (λ n. clock) 1 3 last
      (λ s. s ≡ joined) counters (asked_put ∷ asked_get ∷ []) wire fresh refl refl (omega arith)
      (omega arith) (omega arith) refl
      (
        (
          refl,
          (omega arith),
          (omega arith),
          (omega arith),
          (λ s h e c full. rw e (put_answered h full)),
        ),
        (
          (
            refl,
            (omega arith),
            (omega arith),
            (omega arith),
            (λ s h (bs, e, valid, reads) c full. rw e (get_answered bs h valid reads full)),
          ),
          tt,
        ),
      )
      refl refl
