-- ===== src/Table/Hash.antt =====
-- The hash function of source/table.c: where it is in range, and where it is not.
use kv_storage_service.Common.{
  ℕ, zero, suc, ◌+◌, ◌%◌, ◌<◌, ◌≤◌, pos, ◌≡◌, ◌≢◌, refl, none, some, [], ◌∷◌, All, sub_ℕ, ◌-◌, ltb,
  if◌then◌else◌, ◌+ℤ◌, rem_ℕ, arith,
}
use kv_storage_service.Machine.{Heap, int_max, add_int, ◌>>=◌}
use kv_storage_service.Text.{Str, to_char}
use kv_storage_service.Table.{Table, table_get, sum_chars, remainder, hash_value, read_slot}

-- The characters from 0 to 127, and what those from 128 on subtract as signed chars.
abbrev pub low : Str → ℕ
low [] = 0
low (c ∷ key) = (if ltb c 128 then c else 0) + low key

abbrev pub high : Str → ℕ
high [] = 0
high (c ∷ key) = (if ltb c 128 then 0 else 256 - c) + high key

-- Bytes, whose sums fit into an int.
pub record IsSmall (key : Str) : Type 0 where
  pub bytes : All (λ c. c < 256) key
  pub low_fits : low key ≤ int_max
  pub high_fits : high key ≤ int_max

add_char :
    (a b c : ℕ) (h : Heap)
    → c < 256
    → a + low (c ∷ []) ≤ int_max
    → b + high (c ∷ []) ≤ int_max
    → add_int (sub_ℕ a b) (to_char c) h ≡ some (sub_ℕ (a + low (c ∷ [])) (b + high (c ∷ [])), h)
unfolding ◌+ℤ◌
add_char a b c h lt fl fh = ground arith

sum_chars_lem :
    (key : Str) (a b : ℕ) (h : Heap)
    → All (λ c. c < 256) key
    → a + low key ≤ int_max
    → b + high key ≤ int_max
    → sum_chars (sub_ℕ a b) key h ≡ some (sub_ℕ (a + low key) (b + high key), h)
unfolding sum_chars
sum_chars_lem [] a b h s fl fh = ground arith
sum_chars_lem (c ∷ key) a b h s fl fh =
    rw (add_char a b c h s.0 (omega arith) (omega arith), ◌>>=◌)
      (rw
        (sum_chars_lem key (a + low (c ∷ [])) (b + high (c ∷ [])) h s.1 (omega arith) (omega arith))
        (ground arith))

-- The sum wraps nowhere, and the remainder takes its sign from the sum.
pub hash_value_lem :
    (key : Str) (n : ℕ) (h : Heap)
    → IsSmall key
    → 0 < n
    → hash_value key (pos n) h ≡ some (rem_ℕ (sub_ℕ (low key) (high key)) n, h)
unfolding hash_value remainder
hash_value_lem key zero h s lt = absurd (omega arith)
hash_value_lem key (suc n) h s lt =
    rw
      (
        sum_chars_lem key 0 0 h s.bytes (omega (arith, s.low_fits)) (omega (arith, s.high_fits)),
        ◌>>=◌,
      )
      (ground arith)

-- An ASCII key that is short enough for the sum of its characters to be an int.
pub record IsPlain (key : Str) : Type 0 where
  pub ascii : All (λ c. c < 128) key
  pub fits : low key ≤ int_max

All-byte : (key : Str) → All (λ c. c < 128) key → All (λ c. c < 256) key
All-byte [] a = tt
All-byte (c ∷ key) a = (omega arith, All-byte key a.1)

high-ascii : (key : Str) → All (λ c. c < 128) key → high key ≡ 0
high-ascii [] a = refl
high-ascii (c ∷ key) a = ground (arith, high-ascii key)

pub IsPlain-IsSmall : (key : Str) → IsPlain key → IsSmall key
IsPlain-IsSmall key p = record {
  bytes = All-byte key p.ascii;
  low_fits = p.fits;
  high_fits = omega (arith, high-ascii key p.ascii);
}

-- the slot of a plain key in a table with n slots
abbrev pub slot : ℕ → Str → ℕ
slot n key = low key % n

-- The hash of an ASCII key whose characters add up to an int is the index of a slot, where there
-- is at least one slot.
pub hash_value-plain :
    (key : Str) (n : ℕ) (h : Heap)
    → IsPlain key
    → 0 < n
    → (hash_value key (pos n) h ≡ some (pos (slot n key), h)) × (slot n key < n)
hash_value-plain key n h p lt = (
  rw (hash_value_lem key n h (IsPlain-IsSmall key p) lt, high-ascii key p.ascii) (ground arith),
  omega arith,
)

-- Where the sums of the positive and of the negative characters of a key fit into an int, and the
-- characters add up to a negative number that the size of the table does not divide, `table_get`
-- of that key is undefined: it looks outside of the array of lists.
pub table_get-negative :
    (t : Table) (key : Str) (n : ℕ) (h : Heap)
    → t.size ≡ pos n
    → 0 < n
    → IsSmall key
    → low key < high key
    → (high key - low key) % n ≢ 0
    → table_get (some t) (some key) h ≡ none
unfolding table_get read_slot
table_get-negative t key n h e lt s neg off =
    rw (e, hash_value_lem key n h s lt, ◌>>=◌) (ground arith)
