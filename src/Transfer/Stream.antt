-- ===== src/Transfer/Stream.antt =====
-- A part of a stream is written behind what was sent, or read from the front of what comes.
use kv_storage_service.Common.{
  ℕ, ◌+◌, ◌<◌, ◌≤◌, ◌≡◌, refl, sym, ◌∙◌, ◌⊎◌, inl, inr, some, List, [], ◌∷◌, ◌++◌, ℤ, pos,
  minus_one, length, arith,
}
use mathlib.Core.List.{head-eq_of_cons-eq, tail-eq_of_cons-eq}
use kv_storage_service.Transfer.{Outcome, write_all, read_all}
use kv_storage_service.Transfer.Writes.{Wrote, write_all_lem}
use kv_storage_service.Transfer.Reads.{Got, read_all_lem}

-- The front of a list is known by its length.
pub split_eq :
    (xs ys zs ws : List ℕ) → length xs ≡ length zs → xs ++ ys ≡ zs ++ ws → (xs ≡ zs) × (ys ≡ ws)
split_eq [] ys [] ws e f = (refl, f)
split_eq [] ys (z ∷ zs) ws e f = absurd (omega arith)
split_eq (x ∷ xs) ys [] ws e f = absurd (omega arith)
split_eq (x ∷ xs) ys (z ∷ zs) ws e f =
    let (g, k) = split_eq xs ys zs ws (omega arith) (tail-eq_of_cons-eq f) in
    let h : x ≡ z = head-eq_of_cons-eq f in (rw (g, h) refl, k)

-- A socket that is interrupted at most p times.
module _ {Sock : Type 0} (stream : Sock → List ℕ) (patience : Sock → ℕ) (p : ℕ)
    (calm : (s : Sock) → patience s ≤ p) where
  pub write_back :
      (write : Sock → List ℕ → Outcome ℕ × Sock)
      → ((s : Sock) (buf : List ℕ) → Wrote stream patience s buf (write s buf))
      → (n : ℕ) (bytes : List ℕ) (s : Sock) → p + length bytes < n
      → ((t : Sock) × (write_all write n bytes s ≡ some (pos (length bytes), t))
          × (stream t ≡ stream s ++ bytes))
        ⊎ ((r : ℤ) × (t : Sock) × (write_all write n bytes s ≡ some (r, t))
            × (0 < length bytes)
            × ((r ≡ minus_one) ⊎ (r ≡ pos 0)))
  write_back write documented n bytes s lt =
      let (r, t, run, ended) =
        write_all_lem stream patience write documented n bytes s (omega (arith, calm s)) in
      elim ended [
        | inl (e, f) ↦ inl (t, run ∙ rw e refl, f)
        | inr (bad, k, lt', f) ↦ inr (r, t, run, omega arith, bad)
      ]

  pub read_front :
      (read : Sock → ℕ → Outcome (List ℕ) × Sock)
      → ((s : Sock) (len : ℕ) → Got stream patience s len (read s len))
      → (n : ℕ) (bytes after : List ℕ) (s : Sock) → p + length bytes < n
      → stream s ≡ bytes ++ after
      → ((t : Sock) × (read_all read n (length bytes) s ≡ some (pos (length bytes), bytes, t))
          × (stream t ≡ after))
        ⊎ ((r : ℤ) × (buf : List ℕ) × (t : Sock) × (read_all read n (length bytes) s
              ≡ some (r, buf, t))
            × (0 < length bytes)
            × ((r ≡ minus_one) ⊎ (r ≡ pos 0)))
  read_front read documented n bytes after s lt front =
      let (r, buf, t, run, (whole, ended)) =
        read_all_lem stream patience read documented n (length bytes) s (omega (arith, calm s)) in
      elim ended [
        | inl (e, full_buf) ↦
            let (same, left) = split_eq buf (stream t) bytes after full_buf (sym whole ∙ front) in
            inl (t, run ∙ rw (e, same) refl, left)
        | inr (bad, less) ↦ inr (r, buf, t, run, omega arith, bad)
      ]
