-- ===== src/RwLock/Safety.antt =====
-- What holds of the lock in every reachable state.
use kv_storage_service.Common.{
  ℕ, zero, suc, ◌+◌, ◌<◌, ◌≤◌, ◌≡◌, refl, ap, ◌≢◌, ◌∙◌, ◌⊎◌, inl, inr, pos, ◌+ℤ◌, Bool, true, false,
  List, [], ◌∷◌, map, length, get_or, set, arith,
}
use native.Mathlib.Decide.{dec_lt}
use kv_storage_service.RwLock.{
  Lock, read_waits, start_read, end_read, write_waits, start_write, end_write,
}
use kv_storage_service.RwLock.System.{
  Pc, idle, wants_read, asleep_read, reading, wants_write, asleep_write, writing, wake, Move,
  call_read, read_sleeps, read_enters, read_leaves, call_write, write_sleeps, write_enters,
  write_leaves, stirs, System, woken, Step, pick, start, Reach, here, next, tally, tally-set,
  tally-wake, tally_eq, tally-replicate,
}

abbrev pub reads : Pc → ℕ
reads reading = 1
reads _ = 0

abbrev pub writes : Pc → ℕ
writes writing = 1
writes _ = 0

abbrev pub sleeps_read : Pc → ℕ
sleeps_read asleep_read = 1
sleeps_read _ = 0

abbrev pub sleeps_write : Pc → ℕ
sleeps_write asleep_write = 1
sleeps_write _ = 0

-- The counters count the threads inside, no thread is inside with a writer, and a thread sleeps
-- only while there is one inside that will wake it.
pub record Inv (l : Lock) (ts : List Pc) : Type 0 where
  pub readers : l.n_readers ≡ pos (tally reads ts)
  pub writers : l.n_writers ≡ pos (tally writes ts)
  pub exclusive : (tally writes ts ≡ 0) ⊎ ((tally writes ts ≡ 1) × (tally reads ts ≡ 0))
  pub read_sleepers : (tally sleeps_read ts ≡ 0) ⊎ (0 < tally writes ts)
  pub write_sleepers : (tally sleeps_write ts ≡ 0) ⊎ (0 < tally reads ts + tally writes ts)

tally-zero : (ts : List Pc) → tally (λ p. 0) ts ≡ 0
unfolding tally
tally-zero [] = refl
tally-zero (p ∷ ts) = omega (arith, tally-zero ts)

-- Thread i goes from p to p'.
record Moved (ts : List Pc) (i : ℕ) (p p' : Pc) : Type 0 where
  readers : tally reads (set ts i p') + reads p ≡ tally reads ts + reads p'
  writers : tally writes (set ts i p') + writes p ≡ tally writes ts + writes p'
  read_sleepers :
      tally sleeps_read (set ts i p') + sleeps_read p ≡ tally sleeps_read ts + sleeps_read p'
  write_sleepers :
      tally sleeps_write (set ts i p') + sleeps_write p ≡ tally sleeps_write ts + sleeps_write p'

moved : (ts : List Pc) (i : ℕ) (p p' : Pc) → i < length ts → get_or ts i idle ≡ p → Moved ts i p p'
moved ts i p p' lt e = record {
  readers = rw e at (tally-set reads ts i p' lt);
  writers = rw e at (tally-set writes ts i p' lt);
  read_sleepers = rw e at (tally-set sleeps_read ts i p' lt);
  write_sleepers = rw e at (tally-set sleeps_write ts i p' lt);
}

-- The part of the invariant that a broadcast keeps.
record Core (l : Lock) (ts : List Pc) : Type 0 where
  readers : l.n_readers ≡ pos (tally reads ts)
  writers : l.n_writers ≡ pos (tally writes ts)
  exclusive : (tally writes ts ≡ 0) ⊎ ((tally writes ts ≡ 1) × (tally reads ts ≡ 0))

-- It leaves no sleeper.
Inv-wake : (l : Lock) (ts : List Pc) → Core l ts → Inv l (map wake ts)
Inv-wake l ts c =
    let same_r =
      tally-wake reads ts ∙ tally_eq (λ p. reads (wake p)) reads ts (λ p. ground arith) in
    let same_w =
      tally-wake writes ts ∙ tally_eq (λ p. writes (wake p)) writes ts (λ p. ground arith) in
    let none_r =
      tally-wake sleeps_read ts
      ∙ tally_eq (λ p. sleeps_read (wake p)) (λ p. 0) ts (λ p. ground arith) in
    let none_w =
      tally-wake sleeps_write ts
      ∙ tally_eq (λ p. sleeps_write (wake p)) (λ p. 0) ts (λ p. ground arith) in
    record {
      readers = rw same_r c.readers;
      writers = rw same_w c.writers;
      exclusive = rw (same_r, same_w) c.exclusive;
      read_sleepers = inl (none_r ∙ tally-zero ts);
      write_sleepers = inl (none_w ∙ tally-zero ts);
    }

Inv-woken :
    (l : Lock) (ts : List Pc) (b : Bool) → Core l ts → (b ≡ false → Inv l ts) → Inv l (woken b ts)
Inv-woken l ts true c inv = Inv-wake l ts c
Inv-woken l ts false c inv = inv refl

module _ {l : Lock} {ts : List Pc} (inv : Inv l ts) (i : ℕ) (lt : i < length ts) where
  Move-Inv :
      {l' : Lock} {p p' : Pc} {b : Bool}
      → Move l p l' p' b
      → get_or ts i idle ≡ p
      → Inv l' (woken b (set ts i p'))
  unfolding read_waits start_read end_read write_waits start_write end_write ◌+ℤ◌
  Move-Inv call_read e = ground (arith, inv, moved ts i idle wants_read lt e)
  Move-Inv (read_sleeps w) e = ground (arith, inv, moved ts i wants_read asleep_read lt e)
  Move-Inv (read_enters w) e = ground (arith, inv, moved ts i wants_read reading lt e)
  Move-Inv read_leaves e =
      Inv-woken (end_read l).0 (set ts i idle) (end_read l).1
        (ground (arith, inv, moved ts i reading idle lt e))
        (λ q. ground (arith, inv, moved ts i reading idle lt e))
  Move-Inv call_write e = ground (arith, inv, moved ts i idle wants_write lt e)
  Move-Inv (write_sleeps w) e = ground (arith, inv, moved ts i wants_write asleep_write lt e)
  Move-Inv (write_enters w) e = ground (arith, inv, moved ts i wants_write writing lt e)
  Move-Inv write_leaves e =
      Inv-wake (end_write l) (set ts i idle) (ground (arith, inv, moved ts i writing idle lt e))
  Move-Inv (stirs p) e = ground (arith, inv, moved ts i p (wake p) lt e)

Inv-start : (n : ℕ) → Inv (start n).lock (start n).threads
Inv-start n = record {
  readers = rw tally-replicate;
  writers = rw tally-replicate;
  exclusive = inl (tally-replicate writes n refl);
  read_sleepers = inl (tally-replicate sleeps_read n refl);
  write_sleepers = inl (tally-replicate sleeps_write n refl);
}

pub Step-Inv : {s t : System} → Step s t → Inv s.lock s.threads → Inv t.lock t.threads
Step-Inv (pick i lt mv) inv = Move-Inv inv i lt mv refl

pub Reach-Inv : {n : ℕ} {s : System} → Reach n s → Inv s.lock s.threads
Reach-Inv {n} here = Inv-start n
Reach-Inv (next r st) = Step-Inv st (Reach-Inv r)

-- Two threads of weight 1 count twice.
tally-le : (w : Pc → ℕ) (ts : List Pc) (i : ℕ) → w idle ≡ 0 → w (get_or ts i idle) ≤ tally w ts
unfolding tally
tally-le w [] i z = omega arith
tally-le w (p ∷ ts) zero z = omega arith
tally-le w (p ∷ ts) (suc i) z = omega (arith, tally-le w ts i z)

tally-two :
    (w : Pc → ℕ) (ts : List Pc) (i j : ℕ)
    → w idle ≡ 0
    → i ≢ j
    → w (get_or ts i idle) + w (get_or ts j idle) ≤ tally w ts
unfolding tally
tally-two w [] i j z ne = omega arith
tally-two w (p ∷ ts) zero zero z ne = absurd (ne refl)
tally-two w (p ∷ ts) zero (suc j) z ne = omega (arith, tally-le w ts j z)
tally-two w (p ∷ ts) (suc i) zero z ne = omega (arith, tally-le w ts i z)
tally-two w (p ∷ ts) (suc i) (suc j) z ne = omega (arith, tally-two w ts i j z (λ e. ne (ap suc e)))

-- In every reachable state, a thread that writes is inside alone: no other thread writes or reads.
pub mutual_exclusion :
    {n : ℕ} {s : System}
    → Reach n s
    → (i j : ℕ) → i ≢ j
    → get_or s.threads i idle ≡ writing
    → (get_or s.threads j idle ≢ writing) × (get_or s.threads j idle ≢ reading)
mutual_exclusion {s = s} r i j ne e = (
  λ f. ground (arith, Reach-Inv r, tally-two writes s.threads i j refl ne),
  λ f.
      ground
        (arith, Reach-Inv r, tally-le writes s.threads i refl, tally-le reads s.threads j refl),
)

reader_inside : (ts : List Pc) → 0 < tally reads ts → (j : ℕ) × (get_or ts j idle ≡ reading)
unfolding tally
reader_inside [] lt = absurd (omega arith)
reader_inside (reading ∷ ts) lt = (0, refl)
reader_inside (idle ∷ ts) lt = let (j, e) = reader_inside ts (omega arith) in (suc j, e)
reader_inside (p ∷ ts) lt = let (j, e) = reader_inside ts (omega arith) in (suc j, e)

writer_inside : (ts : List Pc) → 0 < tally writes ts → (j : ℕ) × (get_or ts j idle ≡ writing)
unfolding tally
writer_inside [] lt = absurd (omega arith)
writer_inside (writing ∷ ts) lt = (0, refl)
writer_inside (idle ∷ ts) lt = let (j, e) = writer_inside ts (omega arith) in (suc j, e)
writer_inside (p ∷ ts) lt = let (j, e) = writer_inside ts (omega arith) in (suc j, e)

-- No wake-up is lost: in every reachable state, while a thread sleeps before a read some thread
-- writes, and while one sleeps before a write some thread writes or reads.
pub no_lost_wakeup :
    {n : ℕ} {s : System}
    → Reach n s
    → (i : ℕ) → (get_or s.threads i idle ≡ asleep_read) ⊎ (get_or s.threads i idle ≡ asleep_write)
    → (j : ℕ) × ((get_or s.threads j idle ≡ writing)
        ⊎ ((get_or s.threads j idle ≡ reading) × (get_or s.threads i idle ≡ asleep_write)))
no_lost_wakeup {s = s} r i (inl e) =
    let (j, f) =
      writer_inside s.threads
        (ground (arith, Reach-Inv r, tally-le sleeps_read s.threads i refl)) in
    (j, inl f)
no_lost_wakeup {s = s} r i (inr e) = elim (dec_lt 0 (tally writes s.threads)) [
  | yes lt ↦ let (j, f) = writer_inside s.threads lt in (j, inl f)
  | no nlt ↦
      let (j, f) =
        reader_inside s.threads
          (ground (arith, Reach-Inv r, tally-le sleeps_write s.threads i refl)) in
      (j, inr (f, e))
]
