-- ===== src/Tests/Transfers.antt =====
-- `write_all` and `read_all` on a socket that is interrupted and moves one byte at a time.
use kv_storage_service.Common.{
  ℕ, zero, suc, ◌≡◌, refl, sym, some, List, [], ◌∷◌, ◌++◌, ℤ, pos, arith,
}
use mathlib.Core.List.{append-nil}
use kv_storage_service.Transfer.{
  Outcome, interrupted, moved, write_turn, write_rest, write_all, read_turn, read_rest, read_all,
}
use kv_storage_service.Transfer.Writes.{Wrote, Ended, write_all_lem}
use kv_storage_service.Transfer.Reads.{Got, Filled, read_all_lem}

-- the bytes on the wire, and the interruptions to come
abbrev Wire : Type 0
Wire = List ℕ × ℕ

abbrev slow_write : Wire → List ℕ → Outcome ℕ × Wire
slow_write (bytes, suc p) buf = (interrupted, (bytes, p))
slow_write (bytes, zero) [] = (moved 0, (bytes, zero))
slow_write (bytes, zero) (b ∷ bs) = (moved 1, (bytes ++ b ∷ [], zero))

abbrev slow_read : Wire → ℕ → Outcome (List ℕ) × Wire
slow_read (bytes, suc p) len = (interrupted, (bytes, p))
slow_read (bytes, zero) zero = (moved [], (bytes, zero))
slow_read ([], zero) (suc len) = (moved [], ([], zero))
slow_read (b ∷ bytes, zero) (suc len) = (moved (b ∷ []), (bytes, zero))

slow_write-Wrote : (s : Wire) (buf : List ℕ) → Wrote (λ w. w.0) (λ w. w.1) s buf (slow_write s buf)
slow_write-Wrote (bytes, suc p) buf = (refl, omega arith)
slow_write-Wrote (bytes, zero) [] = (omega arith, sym (append-nil bytes), omega arith)
slow_write-Wrote (bytes, zero) (b ∷ bs) = (omega arith, refl, omega arith)

slow_read-Got : (s : Wire) (len : ℕ) → Got (λ w. w.0) (λ w. w.1) s len (slow_read s len)
slow_read-Got (bytes, suc p) len = (refl, omega arith)
slow_read-Got (bytes, zero) zero = (omega arith, refl, omega arith)
slow_read-Got ([], zero) (suc len) = (omega arith, refl, omega arith)
slow_read-Got (b ∷ bytes, zero) (suc len) = (omega arith, refl, omega arith)

write_all_run : write_all slow_write 9 (1 ∷ 2 ∷ []) ([], 2) ≡ some (pos 2, ((1 ∷ 2 ∷ []), 0))
unfolding write_all write_rest write_turn
write_all_run = refl

-- A stream that ends too early gives 0.
read_all_run : read_all slow_read 9 3 (1 ∷ 2 ∷ [], 1) ≡ some (pos 0, 1 ∷ 2 ∷ [], ([], 0))
unfolding read_all read_rest read_turn
read_all_run = refl

write_all_example :
    (r : ℤ) × (t : Wire) × (write_all slow_write 9 (1 ∷ 2 ∷ []) ([], 2) ≡ some (r, t))
    × Ended (λ w. w.0) (λ w. w.1) 2 (1 ∷ 2 ∷ []) ([], 2) r t
write_all_example =
    write_all_lem (λ w. w.0) (λ w. w.1) slow_write slow_write-Wrote 9 (1 ∷ 2 ∷ []) ([], 2)
      (omega arith)

read_all_example :
    (r : ℤ) × (out : List ℕ) × (t : Wire) × (read_all slow_read 9 3 (1 ∷ 2 ∷ [], 1)
      ≡ some (r, out, t))
    × Filled (λ w. w.0) (λ w. w.1) 3 (1 ∷ 2 ∷ []) r out t
read_all_example =
    read_all_lem (λ w. w.0) (λ w. w.1) slow_read slow_read-Got 9 3 (1 ∷ 2 ∷ [], 1) (omega arith)
