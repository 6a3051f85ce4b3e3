-- ===== src/Machine.antt =====
-- The C machine that the sources run on: a heap that may refuse an allocation, null pointers,
-- int arithmetic, and the places where C leaves the behaviour undefined.
use kv_storage_service.Common.{
  ◌-◌, ◌^◌, ℕ, ◌+◌, ◌≡◌, Bool, true, false, Option, none, some, List, [], ◌∷◌, ℤ, pos, negsuc, ◌+ℤ◌,
  leb, length, take, if◌then◌else◌,
}

-- What `malloc` will answer (it succeeds once the list is used up), and how many blocks it has
-- handed out and `free` has taken back.
pub record Heap : Type 0 where
  pub answers : List Bool
  pub allocs : ℕ
  pub frees : ℕ

-- `none` is undefined behaviour (a null pointer followed, an index out of bounds, an int overflow), or
-- a wait for something that no one does.
abbrev pub M : Type 0 → Type 0
M Result = Heap → Option (Result × Heap)

abbrev pub fault : {A : Type 0} → M A
fault heap = none

abbrev pub pure : {A : Type 0} → A → M A
pure value heap = some (value, heap)

-- One computation and then another: undefined behaviour in the first is undefined behaviour.
abbrev pub ◌>>=◌ : {A : Type 0} {B : Type 0} → M A → (A → M B) → M B
◌>>=◌ first rest heap = elim (first heap) [ some (value, after) ↦ rest value after | none ↦ none ]

infixl 5 ◌>>=◌
-- The same where the result of the first is not looked at.
abbrev pub ◌>>◌ : {A : Type 0} {B : Type 0} → M A → M B → M B
first >> second = first >>= λ _. second

infixl 5 ◌>>◌
abbrev pub answer : List Bool → Bool
answer [] = true
answer (b ∷ bs) = b

abbrev pub later : List Bool → List Bool
later [] = []
later (b ∷ bs) = bs

abbrev pub to_nat : Bool → ℕ
to_nat true = 1
to_nat false = 0

-- The heap after one call of `malloc`, whatever it answers.
abbrev pub asked : Heap → Heap
asked h = record h { answers = later h.answers; allocs = h.allocs + to_nat (answer h.answers) }

-- The heap after n blocks are given back.
abbrev pub released : Heap → ℕ → Heap
released h n = record h { frees = h.frees + n }

-- `malloc(n)` for n > 0, up to the pointer: whether the call succeeded
unfoldable pub malloc : M Bool
malloc h = some (answer h.answers, asked h)

-- `free(p)`; the null pointer is ignored
unfoldable pub free : {A : Type 0} → Option A → M (Unit {0})
free none h = some (tt, h)
free (some p) h = some (tt, released h 1)

-- `*p`
abbrev pub deref : {A : Type 0} → Option A → M A
deref none = fault
deref (some p) = pure p

-- INT_MAX of a 32-bit int
abbrev pub int_max : ℕ
int_max = 2147483647

-- the result of an int operation, undefined where it overflows
abbrev pub to_int : ℤ → M ℤ
to_int (pos n) = if leb n int_max then pure (pos n) else fault
to_int (negsuc n) = if leb n int_max then pure (negsuc n) else fault

abbrev pub add_int : ℤ → ℤ → M ℤ
add_int a b = to_int (a +ℤ b)

-- LONG_MAX of a 64-bit long, and the result of a long operation
abbrev pub long_max : ℕ
long_max = 9223372036854775807

abbrev pub to_long : ℤ → M ℤ
to_long (pos n) = if leb n long_max then pure (pos n) else fault
to_long (negsuc n) = if leb n long_max then pure (negsuc n) else fault

-- the conversion of an int to size_t, of 64 bits
abbrev pub to_size : ℤ → ℕ
to_size (pos n) = n
to_size (negsuc n) = 2 ^ 64 - 1 - n

-- `memcpy(dst, src, n)` into a fresh block of n bytes: the source must have n bytes
abbrev pub memcpy : ℕ → List ℕ → M (List ℕ)
memcpy n src = if leb n (length src) then pure (take n src) else fault

-- `n <= 0`
abbrev pub le_zero : ℤ → Bool
le_zero (pos n) = leb n 0
le_zero (negsuc n) = true

abbrev pub is_null {ℓ} : {A : Type ℓ} → Option A → Bool
is_null none = true
is_null (some p) = false

-- The heap after n allocations that succeed and m blocks given back, where nothing is refused.
abbrev pub grown : Heap → ℕ → ℕ → Heap
grown h n m = record h { allocs = h.allocs + n; frees = h.frees + m }

-- `malloc` refuses nothing from here on
abbrev pub IsAmple : Heap → Type 0
IsAmple h = h.answers ≡ []
