-- ===== src/RwLock/System.antt =====
-- Threads that read and write under the lock, interleaved in any order.
use kv_storage_service.Common.{
  replicate, ℕ, zero, suc, ◌+◌, ◌<◌, ◌≡◌, refl, pos, Bool, true, false, List, [], ◌∷◌, map, length,
  get_or, set, if◌then◌else◌, arith,
}
use kv_storage_service.RwLock.{
  Lock, read_waits, start_read, end_read, write_waits, start_write, end_write,
}

-- Where a thread stands: outside, before the test of a loop, in `pthread_cond_wait`, or in the
-- section that the lock guards.
pub data Pc : Type 0 where
  idle wants_read asleep_read reading wants_write asleep_write writing : Pc

-- A wake-up, by a broadcast or without a cause.
abbrev pub wake : Pc → Pc
wake asleep_read = wants_read
wake asleep_write = wants_write
wake p = p

-- One atomic section of a thread, with whether it broadcasts.
pub data Move (l : Lock) : Pc → Lock → Pc → Bool → Type 0 where
  call_read : Move l idle l wants_read false
  read_sleeps : read_waits l ≡ true → Move l wants_read l asleep_read false
  read_enters : read_waits l ≡ false → Move l wants_read (start_read l) reading false
  read_leaves : Move l reading (end_read l).0 idle (end_read l).1
  call_write : Move l idle l wants_write false
  write_sleeps : write_waits l ≡ true → Move l wants_write l asleep_write false
  write_enters : write_waits l ≡ false → Move l wants_write (start_write l) writing false
  write_leaves : Move l writing (end_write l) idle true
  stirs : (p : Pc) → Move l p l (wake p) false

pub record System : Type 0 where
  pub lock : Lock
  pub threads : List Pc

abbrev pub woken : Bool → List Pc → List Pc
woken b ts = if b then map wake ts else ts

pub data Step (s : System) : System → Type 0 where
  pick :
      (i : ℕ) {l : Lock} {p : Pc} {b : Bool}
      → i < length s.threads
      → Move s.lock (get_or s.threads i idle) l p b
      → Step s (record { lock = l; threads = woken b (set s.threads i p) })

-- At the start no thread is inside, and the counters are 0.
abbrev pub start : ℕ → System
start n = record {
  lock = record { n_readers = pos 0; n_writers = pos 0 };
  threads = replicate n idle;
}

pub data Reach (n : ℕ) : System → Type 0 where
  here : Reach n (start n)
  next : {s t : System} → Reach n s → Step s t → Reach n t

-- How many threads stand where w is 1.
unfoldable pub tally : (Pc → ℕ) → List Pc → ℕ
tally w [] = 0
tally w (p ∷ ts) = w p + tally w ts

pub tally-set :
    (w : Pc → ℕ) (ts : List Pc) (i : ℕ) (p : Pc)
    → i < length ts
    → tally w (set ts i p) + w (get_or ts i idle) ≡ tally w ts + w p
unfolding tally
tally-set w [] i p lt = absurd (omega arith)
tally-set w (q ∷ ts) zero p lt = omega arith
tally-set w (q ∷ ts) (suc i) p lt = omega (arith, tally-set w ts i p)

pub tally-wake : (w : Pc → ℕ) (ts : List Pc) → tally w (map wake ts) ≡ tally (λ p. w (wake p)) ts
unfolding tally
tally-wake w [] = refl
tally-wake w (p ∷ ts) = omega (arith, tally-wake w ts)

pub tally_eq : (w u : Pc → ℕ) (ts : List Pc) → ((p : Pc) → w p ≡ u p) → tally w ts ≡ tally u ts
unfolding tally
tally_eq w u [] e = refl
tally_eq w u (p ∷ ts) e = omega (arith, e p, tally_eq w u ts e)

pub tally-replicate : (w : Pc → ℕ) (n : ℕ) → w idle ≡ 0 → tally w (replicate n idle) ≡ 0
unfolding tally
tally-replicate w zero e = refl
tally-replicate w (suc n) e = omega (arith, tally-replicate w n e)
