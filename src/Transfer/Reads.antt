-- ===== src/Transfer/Reads.antt =====
-- `read_all` gives the next bytes of the stream, all of them or an error.
use kv_storage_service.Common.{
  ℕ, zero, suc, ◌+◌, ◌-◌, ◌<◌, ◌≤◌, ◌≡◌, refl, sym, ap, ◌∙◌, ◌⊎◌, inl, inr, Option, some, List, [],
  ◌∷◌, ◌++◌, ℤ, pos, minus_one, length, length-append, arith,
}
use mathlib.Core.List.{append_assoc}
use kv_storage_service.Transfer.{
  Outcome, interrupted, failed, moved, read_turn, read_rest, read_all,
}

module _ {Sock : Type 0} (incoming : Sock → List ℕ) (patience : Sock → ℕ) where
  -- What read(2) documents: it takes at most `len` bytes from the front of the stream, and with an
  -- error none. The interruptions to come are finitely many.
  abbrev pub Got : Sock → ℕ → Outcome (List ℕ) × Sock → Type 0
  Got s len (interrupted, t) = (incoming t ≡ incoming s) × (patience t < patience s)
  Got s len (failed, t) = incoming t ≡ incoming s
  Got s len (moved bs, t) =
      (length bs ≤ len) × (incoming s ≡ bs ++ incoming t) × (patience t ≤ patience s)

  -- The buffer has what the stream has lost; it is full, or the result is an error and it is not.
  abbrev pub Filled : ℕ → List ℕ → ℤ → List ℕ → Sock → Type 0
  Filled size stream r buf t =
      (stream ≡ buf ++ incoming t)
      × (((r ≡ pos size) × (length buf ≡ size))
          ⊎ (((r ≡ minus_one) ⊎ (r ≡ pos 0)) × (length buf < size)))

  turn-Filled :
      (n size len : ℕ) (buf stream : List ℕ) (s : Sock) (o : Outcome (List ℕ) × Sock)
      (again : ℕ → List ℕ → Sock → Option (ℤ × List ℕ × Sock))
      → Got s (suc len) o
      → patience s + suc len < suc n
      → suc len + length buf ≡ size
      → stream ≡ buf ++ incoming s
      → ((left : ℕ) (held : List ℕ) (s' : Sock)
          → patience s' + left < n
          → left + length held ≡ size
          → stream ≡ held ++ incoming s'
          → (r : ℤ) × (out : List ℕ) × (t : Sock) × (again left held s' ≡ some (r, out, t))
            × Filled size stream r out t)
      → (r : ℤ) × (out : List ℕ) × (t : Sock) × (read_turn again (suc len) buf o ≡ some (r, out, t))
        × Filled size stream r out t
  unfolding read_turn
  turn-Filled n size len buf stream s (interrupted, t) again (same, less) lt fit e ends =
      ends (suc len) buf t (omega arith) fit (e ∙ ap (λ x. buf ++ x) (sym same))
  turn-Filled n size len buf stream s (failed, t) again same lt fit e ends =
      (minus_one, buf, t, refl, (e ∙ ap (λ x. buf ++ x) (sym same), inr (inl refl, omega arith)))
  turn-Filled n size len buf stream s (moved [], t) again (le, same, less) lt fit e ends =
      (pos 0, buf, t, refl, (e ∙ ap (λ x. buf ++ x) same, inr (inr refl, omega arith)))
  turn-Filled n size len buf stream s (moved (b ∷ bs), t) again (le, same, less) lt fit e ends =
      ends (suc len - length (b ∷ bs)) (buf ++ b ∷ bs) t (omega arith)
        (omega (arith, length-append buf (b ∷ bs)))
        (e ∙ ap (λ x. buf ++ x) same ∙ sym (append_assoc buf (b ∷ bs) (incoming t)))

  module _ (read : Sock → ℕ → Outcome (List ℕ) × Sock)
      (documented : (s : Sock) (len : ℕ) → Got s len (read s len)) where
    read_rest_lem :
        (n size len : ℕ) (buf stream : List ℕ) (s : Sock)
        → patience s + len < n
        → len + length buf ≡ size
        → stream ≡ buf ++ incoming s
        → (r : ℤ) × (out : List ℕ) × (t : Sock) × (read_rest read n size len buf s
            ≡ some (r, out, t))
          × Filled size stream r out t
    unfolding read_rest
    read_rest_lem zero size len buf stream s lt fit e = absurd (omega arith)
    read_rest_lem (suc n) size zero buf stream s lt fit e =
        (pos size, buf, s, refl, (e, inl (refl, omega arith)))
    read_rest_lem (suc n) size (suc len) buf stream s lt fit e =
        turn-Filled n size len buf stream s _ (read_rest read n size) (documented s (suc len)) lt
          fit e (λ left held s'. read_rest_lem n size left held stream s')

    -- On a socket that does what read documents, with more turns than bytes to read and
    -- interruptions to come, `read_all` ends: it returns `len` with the next `len` bytes of the
    -- stream in the buffer, or 0 or -1 with fewer of them; no byte is lost or read twice.
    pub read_all_lem :
        (n len : ℕ) (s : Sock)
        → patience s + len < n
        → (r : ℤ) × (out : List ℕ) × (t : Sock) × (read_all read n len s ≡ some (r, out, t))
          × Filled len (incoming s) r out t
    unfolding read_all
    read_all_lem n len s lt = read_rest_lem n len len [] (incoming s) s lt (omega arith) refl
