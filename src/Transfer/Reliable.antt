-- ===== src/Transfer/Reliable.antt =====
-- write_all and read_all on a socket whose calls do not fail.
use kv_storage_service.Common.{
  ℕ, zero, suc, ◌+◌, ◌-◌, ◌<◌, ◌≤◌, ◌≡◌, refl, ap, inl, inr, Option, none, some, List, [], ◌∷◌,
  ◌++◌, ℤ, pos, length, length-append, drop, arith,
}
use mathlib.Core.Path.{subst}
use kv_storage_service.Transfer.{
  Outcome, interrupted, failed, moved, write_turn, write_rest, write_all, read_turn, read_rest,
  read_all,
}
use kv_storage_service.Transfer.Writes.{Wrote}
use kv_storage_service.Transfer.Reads.{Got}
use kv_storage_service.Transfer.Stream.{write_back, read_front}

-- A call that meets no error and moves a byte at least, if one is there.
abbrev pub Takes : {Sock : Type 0} → Outcome ℕ × Sock → Type 0
Takes (failed, t) = ⊥
Takes (moved zero, t) = ⊥
Takes (interrupted, t) = Unit
Takes (moved (suc k), t) = Unit

abbrev pub Gives : {Sock : Type 0} → List ℕ → Outcome (List ℕ) × Sock → Type 0
Gives there (failed, t) = ⊥
Gives there (moved [], t) = there ≡ []
Gives there (interrupted, t) = Unit
Gives there (moved (b ∷ bs), t) = Unit

abbrev WroteAll : {Sock : Type 0} → ℕ → Option (ℤ × Sock) → Type 0
WroteAll size none = Unit
WroteAll size (some (r, t)) = r ≡ pos size

abbrev ReadAll : {Sock : Type 0} → ℕ → Option (ℤ × List ℕ × Sock) → Type 0
ReadAll size none = Unit
ReadAll size (some (r, buf, t)) = r ≡ pos size

module _ {Sock : Type 0} (stream : Sock → List ℕ) (patience : Sock → ℕ) (p : ℕ)
    (calm : (s : Sock) → patience s ≤ p) where
  module _ (write : Sock → List ℕ → Outcome ℕ × Sock)
      (writes : (s : Sock) (buf : List ℕ) → Wrote stream patience s buf (write s buf))
      (takes : (s : Sock) (b : ℕ) (bs : List ℕ) → Takes (write s (b ∷ bs))) where
    write_turn-WroteAll :
        (size b : ℕ) (bs : List ℕ) (o : Outcome ℕ × Sock)
        (again : List ℕ → Sock → Option (ℤ × Sock))
        → Takes o
        → ((buf : List ℕ) (t : Sock) → WroteAll size (again buf t))
        → WroteAll size (write_turn again b bs o)
    unfolding write_turn
    write_turn-WroteAll size b bs (interrupted, t) again ok rest = rest (b ∷ bs) t
    write_turn-WroteAll size b bs (failed, t) again ok rest = absurd ok
    write_turn-WroteAll size b bs (moved zero, t) again ok rest = absurd ok
    write_turn-WroteAll size b bs (moved (suc k), t) again ok rest = rest (drop k bs) t

    write_rest-WroteAll :
        (n size : ℕ) (buf : List ℕ) (s : Sock) → WroteAll size (write_rest write n size buf s)
    unfolding write_rest
    write_rest-WroteAll zero size buf s = tt
    write_rest-WroteAll (suc n) size [] s = refl
    write_rest-WroteAll (suc n) size (b ∷ bs) s =
        write_turn-WroteAll size b bs (write s (b ∷ bs)) (write_rest write n size) (takes s b bs)
          (write_rest-WroteAll n size)

    write_all-WroteAll :
        (n : ℕ) (buf : List ℕ) (s : Sock) → WroteAll (length buf) (write_all write n buf s)
    unfolding write_all
    write_all-WroteAll n buf s = write_rest-WroteAll n (length buf) buf s

    -- All bytes are sent, behind what was sent before.
    pub write_works :
        (n : ℕ) (bytes : List ℕ) (s : Sock)
        → p + length bytes < n
        → (t : Sock) × (write_all write n bytes s ≡ some (pos (length bytes), t))
          × (stream t ≡ stream s ++ bytes)
    write_works n bytes s lt = elim (write_back stream patience p calm write writes n bytes s lt) [
      | inl good ↦ good
      | inr (r, t, run, some_bytes, bad) ↦
          let all : r ≡ pos (length bytes) =
            subst (WroteAll (length bytes)) run (write_all-WroteAll n bytes s) in
          absurd (elim bad [ inl e ↦ ground (arith, all, e) | inr e ↦ ground (arith, all, e) ])
    ]

  module _ (read : Sock → ℕ → Outcome (List ℕ) × Sock)
      (reads : (s : Sock) (len : ℕ) → Got stream patience s len (read s len))
      (gives : (s : Sock) (len : ℕ) → Gives (stream s) (read s (suc len))) where
    read_turn-ReadAll :
        (size len : ℕ) (buf : List ℕ) (s : Sock) (o : Outcome (List ℕ) × Sock)
        (again : ℕ → List ℕ → Sock → Option (ℤ × List ℕ × Sock))
        → Got stream patience s (suc len) o
        → Gives (stream s) o
        → suc len ≤ length (stream s)
        → ((k : ℕ) (held : List ℕ) (t : Sock)
            → k ≤ length (stream t)
            → ReadAll size (again k held t))
        → ReadAll size (read_turn again (suc len) buf o)
    unfolding read_turn
    read_turn-ReadAll size len buf s (interrupted, t) again (same, less) ok le rest =
        rest (suc len) buf t (rw same le)
    read_turn-ReadAll size len buf s (failed, t) again got ok le rest = absurd ok
    read_turn-ReadAll size len buf s (moved [], t) again got ok le rest =
        absurd (omega (arith, le, ap (length {A = ℕ}) ok))
    read_turn-ReadAll size len buf s (moved (b ∷ bs), t) again (fit, front, less) ok le rest =
        rest (suc len - length (b ∷ bs)) (buf ++ b ∷ bs) t
          (omega (arith, le, ap (length {A = ℕ}) front, length-append (b ∷ bs) (stream t)))

    read_rest-ReadAll :
        (n size len : ℕ) (buf : List ℕ) (s : Sock)
        → len ≤ length (stream s)
        → ReadAll size (read_rest read n size len buf s)
    unfolding read_rest
    read_rest-ReadAll zero size len buf s le = tt
    read_rest-ReadAll (suc n) size zero buf s le = refl
    read_rest-ReadAll (suc n) size (suc len) buf s le =
        read_turn-ReadAll size len buf s (read s (suc len)) (read_rest read n size)
          (reads s (suc len)) (gives s len) le (read_rest-ReadAll n size)

    read_all-ReadAll :
        (n len : ℕ) (s : Sock) → len ≤ length (stream s) → ReadAll len (read_all read n len s)
    unfolding read_all
    read_all-ReadAll n len s le = read_rest-ReadAll n len len [] s le

    -- The front of the stream is read.
    pub read_works :
        (n : ℕ) (bytes after : List ℕ) (s : Sock)
        → p + length bytes < n
        → stream s ≡ bytes ++ after
        → (t : Sock) × (read_all read n (length bytes) s ≡ some (pos (length bytes), bytes, t))
          × (stream t ≡ after)
    read_works n bytes after s lt front =
        elim (read_front stream patience p calm read reads n bytes after s lt front) [
          | inl good ↦ good
          | inr (r, buf, t, run, some_bytes, bad) ↦
              let all : r ≡ pos (length bytes) = subst (ReadAll (length bytes)) run (
                read_all-ReadAll n (length bytes) s
                  (omega (arith, ap (length {A = ℕ}) front, length-append bytes after))) in
              absurd (elim bad [ inl e ↦ ground (arith, all, e) | inr e ↦ ground (arith, all, e) ])
        ]
