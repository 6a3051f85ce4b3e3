-- ===== src/Address/Parse.antt =====
-- What `rtable_connect` makes of an address: the host before the colon, and the port behind it.
use kv_storage_service.Common.{
  ℕ, zero, suc, ◌+◌, ◌*◌, ◌/◌, ◌%◌, ◌^◌, ◌<◌, ◌≤◌, ◌≡◌, ◌≢◌, refl, sym, ap, ◌∙◌, pos, some, [], ◌∷◌,
  ◌++◌, All, length, length-append, ltb, Bool-cases, inl, inr, arith,
}
use mathlib.Core.List.{append_assoc, append-nil}
use kv_storage_service.Machine.{Heap, int_max}
use kv_storage_service.Text.{Str}
use kv_storage_service.Text.Token.{
  skip, token, behind, strtok, digits, signed, spaces, atoi, decimal, print_int,
}
use kv_storage_service.Address.{colon}

-- no colon in it
abbrev pub IsPart : Str → Type 0
IsPart s = All (λ c. c ≢ 58) s

token-host : (host rest : Str) → IsPart host → token colon (host ++ 58 ∷ rest) ≡ host
unfolding token
token-host [] rest a = refl
token-host (c ∷ cs) rest (ne, a) = ground (arith, token-host cs rest a)

behind-host : (host rest : Str) → IsPart host → behind colon (host ++ 58 ∷ rest) ≡ rest
unfolding behind
behind-host [] rest a = refl
behind-host (c ∷ cs) rest (ne, a) = ground (arith, behind-host cs rest a)

token-last : (s : Str) → IsPart s → token colon s ≡ s
unfolding token
token-last [] a = refl
token-last (c ∷ cs) (ne, a) = ground (arith, token-last cs a)

pub strtok-host :
    (host rest : Str)
    → 0 < length host
    → IsPart host
    → strtok colon (host ++ 58 ∷ rest) ≡ (some host, rest)
unfolding strtok skip
strtok-host [] rest lt a = absurd (omega arith)
strtok-host (c ∷ cs) rest lt (ne, a) =
    ground (arith, token-host (c ∷ cs) rest (ne, a), behind-host (c ∷ cs) rest (ne, a))

pub strtok-last : (s : Str) → 0 < length s → IsPart s → (strtok colon s).0 ≡ some s
unfolding strtok skip
strtok-last [] lt a = absurd (omega arith)
strtok-last (c ∷ cs) lt (ne, a) = ground (arith, token-last (c ∷ cs) (ne, a))

-- the numbers with at most n digits are below 10 ^ n
abbrev tens : ℕ → ℕ
tens zero = 1
tens (suc n) = 10 * tens n

abbrev IsDigit : ℕ → Type 0
IsDigit c = (48 ≤ c) × (c ≤ 57)

All-snoc : (P : ℕ → Type 0) (xs : Str) (c : ℕ) → All P xs → P c → All P (xs ++ c ∷ [])
All-snoc P [] c a p = (p, tt)
All-snoc P (x ∷ xs) c (q, a) p = (q, All-snoc P xs c a p)

decimal-digits : (n x : ℕ) → All IsDigit (decimal n x)
unfolding decimal
decimal-digits zero x = tt
decimal-digits (suc n) x = elim (Bool-cases (ltb x 10)) [
  | inl b ↦ rw b ((omega arith, ground arith), tt)
  | inr b ↦ rw b (
      All-snoc IsDigit (decimal n (x / 10)) (48 + x % 10) (decimal-digits n (x / 10))
        (omega arith, omega arith))
]

decimal-some : (n x : ℕ) → 0 < length (decimal (suc n) x)
unfolding decimal
decimal-some n x = elim (Bool-cases (ltb x 10)) [
  | inl b ↦ rw b (omega arith)
  | inr b ↦ rw b (length-snoc (decimal n (x / 10)) (48 + x % 10))
]
  where
    length-snoc : (xs : Str) (c : ℕ) → 0 < length (xs ++ c ∷ [])
    length-snoc [] c = omega arith
    length-snoc (x ∷ xs) c = omega arith

-- The digits of a number are read as the number.
digits-decimal : (n x : ℕ) (ys : Str) → x < tens n → digits 0 (decimal n x ++ ys) ≡ digits x ys
unfolding decimal digits
digits-decimal zero x ys lt = ap (λ i. digits i ys) (omega arith)
digits-decimal (suc n) x ys lt = elim (Bool-cases (ltb x 10)) [
  | inl b ↦ rw b (ground arith)
  | inr b ↦ rw b (
      ap (digits 0) (append_assoc (decimal n (x / 10)) ((48 + x % 10) ∷ []) ys)
      ∙ digits-decimal n (x / 10) ((48 + x % 10) ∷ ys) (omega arith)
      ∙ ground arith)
]

signed-digits : (s : Str) → 0 < length s → All IsDigit s → signed (skip spaces s) ≡ pos (digits 0 s)
unfolding signed skip
signed-digits [] lt a = absurd (omega arith)
signed-digits (c ∷ cs) lt ((low, high), a) = ground arith

-- `atoi` reads back what "%d" prints of a number that is an int.
pub atoi-print_int : (x : ℕ) (h : Heap) → x ≤ int_max → atoi (print_int (pos x)) h ≡ some (pos x, h)
unfolding atoi print_int digits
atoi-print_int x h le =
    let read : digits 0 (decimal 10 x) ≡ x =
      ap (digits 0) (sym (append-nil (decimal 10 x))) ∙ digits-decimal 10 x [] (omega arith) in
    rw (signed-digits (decimal 10 x) (decimal-some 9 x) (decimal-digits 10 x), read) (ground arith)

digit-ne-colon : (s : Str) → All IsDigit s → IsPart s
digit-ne-colon [] a = tt
digit-ne-colon (c ∷ cs) ((low, high), a) = (λ e. omega arith, digit-ne-colon cs a)

pub print_int-IsPart : (x : ℕ) → IsPart (print_int (pos x))
unfolding print_int
print_int-IsPart x = digit-ne-colon (decimal 10 x) (decimal-digits 10 x)

pub print_int-some : (x : ℕ) → 0 < length (print_int (pos x))
unfolding print_int
print_int-some x = decimal-some 9 x

length-decimal : (m n x : ℕ) → x < tens (suc n) → length (decimal m x) ≤ suc n
unfolding decimal
length-decimal zero n x lt = omega arith
length-decimal (suc m) zero x lt = ground arith
length-decimal (suc m) (suc n) x lt = ground (
  arith,
  length-append (decimal m (x / 10)) ((48 + x % 10) ∷ []),
  length-decimal m n (x / 10) (omega arith),
)

pub print_int-le : (x : ℕ) → x < 2 ^ 16 → length (print_int (pos x)) ≤ 5
unfolding print_int
print_int-le x lt = length-decimal 10 4 x (omega arith)
