-- ===== src/Transfer/Writes.antt =====
-- `write_all`.
use kv_storage_service.Common.{
  ℕ, zero, suc, ◌+◌, ◌<◌, ◌≤◌, ◌≡◌, refl, sym, ap, ◌∙◌, ◌⊎◌, inl, inr, Option, some, List, [], ◌∷◌,
  ◌++◌, ℤ, pos, minus_one, length, take, drop, length-drop, take-drop, take_add, arith,
}
use mathlib.Core.List.{append-nil, append_assoc}
use kv_storage_service.Transfer.{
  Outcome, interrupted, failed, moved, write_turn, write_rest, write_all,
}

module _ {Sock : Type 0} (sent : Sock → List ℕ) (patience : Sock → ℕ) where
  -- What write(2) documents: it takes some of the bytes, in order, and with an error none. The
  -- interruptions to come are finitely many.
  abbrev pub Wrote : Sock → List ℕ → Outcome ℕ × Sock → Type 0
  Wrote s buf (interrupted, s') = (sent s' ≡ sent s) × (patience s' < patience s)
  Wrote s buf (failed, s') = sent s' ≡ sent s
  Wrote s buf (moved k, s') =
      (k ≤ length buf) × (sent s' ≡ sent s ++ take k buf) × (patience s' ≤ patience s)

  -- All is sent, or the result is an error and a proper part from the front is sent.
  abbrev pub Ended : ℕ → List ℕ → Sock → ℤ → Sock → Type 0
  Ended bufsize buf s r t =
      ((r ≡ pos bufsize) × (sent t ≡ sent s ++ buf))
      ⊎ (((r ≡ minus_one) ⊎ (r ≡ pos 0))
          × (k : ℕ) × (k < length buf)
          × (sent t ≡ sent s ++ take k buf))

  -- What is sent after some of the bytes are.
  resume :
      (bufsize k : ℕ) (buf : List ℕ) (s s₁ : Sock) (r : ℤ) (t : Sock)
      → k ≤ length buf
      → sent s₁ ≡ sent s ++ take k buf
      → Ended bufsize (drop k buf) s₁ r t
      → Ended bufsize buf s r t
  resume bufsize k buf s s₁ r t le same (inl (e, f)) = inl (
    e,
    f
        ∙ ap (λ x. x ++ drop k buf) same
        ∙ append_assoc (sent s) (take k buf) (drop k buf)
        ∙ ap {B = List ℕ} (λ x. sent s ++ x) (take-drop k buf),
  )
  resume bufsize k buf s s₁ r t le same (inr (e, j, lt, f)) = inr (
    e,
    k + j,
    omega (arith, length-drop k buf),
    f
        ∙ ap (λ x. x ++ take j (drop k buf)) same
        ∙ append_assoc (sent s) (take k buf) (take j (drop k buf))
        ∙ ap {B = List ℕ} (λ x. sent s ++ x) (take_add k j buf),
  )

  -- One turn, where the rest of the turns end well.
  turn-Ended :
      (n bufsize b : ℕ) (bs : List ℕ) (s : Sock) (o : Outcome ℕ × Sock)
      (again : List ℕ → Sock → Option (ℤ × Sock))
      → Wrote s (b ∷ bs) o
      → patience s + length (b ∷ bs) < suc n
      → ((buf : List ℕ) (s' : Sock)
          → patience s' + length buf < n
          → (r : ℤ) × (t : Sock) × (again buf s' ≡ some (r, t)) × Ended bufsize buf s' r t)
      → (r : ℤ) × (t : Sock) × (write_turn again b bs o ≡ some (r, t))
        × Ended bufsize (b ∷ bs) s r t
  unfolding write_turn
  turn-Ended n bufsize b bs s (interrupted, s₁) again (same, less) lt ends =
      let (r, t, run, ended) = ends (b ∷ bs) s₁ (omega arith) in
      let same' : sent s₁ ≡ sent s ++ [] = same ∙ sym (append-nil (sent s)) in
      (r, t, run, resume bufsize 0 (b ∷ bs) s s₁ r t (omega arith) same' ended)
  turn-Ended n bufsize b bs s (failed, s₁) again same lt ends =
      (minus_one, s₁, refl, inr (inl refl, 0, omega arith, same ∙ sym (append-nil (sent s))))
  turn-Ended n bufsize b bs s (moved zero, s₁) again (le, same, less) lt ends =
      (pos 0, s₁, refl, inr (inr refl, 0, omega arith, same))
  turn-Ended n bufsize b bs s (moved (suc k), s₁) again (le, same, less) lt ends =
      let (r, t, run, ended) = ends (drop k bs) s₁ (omega (arith, length-drop k bs)) in
      (r, t, run, resume bufsize (suc k) (b ∷ bs) s s₁ r t le same ended)

  module _ (write : Sock → List ℕ → Outcome ℕ × Sock)
      (documented : (s : Sock) (buf : List ℕ) → Wrote s buf (write s buf)) where
    write_rest_lem :
        (n bufsize : ℕ) (buf : List ℕ) (s : Sock)
        → patience s + length buf < n
        → (r : ℤ) × (t : Sock) × (write_rest write n bufsize buf s ≡ some (r, t))
          × Ended bufsize buf s r t
    unfolding write_rest
    write_rest_lem zero bufsize buf s lt = absurd (omega arith)
    write_rest_lem (suc n) bufsize [] s lt =
        (pos bufsize, s, refl, inl (refl, sym (append-nil (sent s))))
    write_rest_lem (suc n) bufsize (b ∷ bs) s lt =
        turn-Ended n bufsize b bs s _ (write_rest write n bufsize) (documented s (b ∷ bs)) lt
          (write_rest_lem n bufsize)

    -- On a socket that does what write documents, with more turns than bytes and interruptions to
    -- come, `write_all` ends: it returns the number of bytes, and they are all sent in order, or 0 or
    -- -1, and then a proper part from their front is sent.
    pub write_all_lem :
        (n : ℕ) (buf : List ℕ) (s : Sock)
        → patience s + length buf < n
        → (r : ℤ) × (t : Sock) × (write_all write n buf s ≡ some (r, t))
          × Ended (length buf) buf s r t
    unfolding write_all
    write_all_lem n buf s lt = write_rest_lem n (length buf) buf s lt
