-- ===== src/Text.antt =====
-- C strings, as string.h reads them: the bytes before the terminator. `strcmp` orders them as
-- unsigned bytes; only the sign of its result is fixed by the C standard, so the model gives
-- -1, 0 or 1. A plain `char` is signed, as in the ABI that the makefile's gcc targets.
pub mod Order
pub mod Token
use kv_storage_service.Common.{
  ℕ, ◌-◌, Bool, compare, Ordering, List, [], ◌∷◌, ℤ, pos, negsuc, minus_one, ltb, ◌==◌, false, true,
  ◌&&◌, if◌then◌else◌,
}

abbrev pub Str : Type 0
Str = List ℕ

unfoldable pub cmp : Str → Str → Ordering
cmp [] [] = Ordering.eq
cmp [] (b ∷ bs) = Ordering.lt
cmp (a ∷ as') [] = Ordering.gt
cmp (a ∷ as') (b ∷ bs) = elim (compare a b) [
  | Ordering.lt ↦ Ordering.lt
  | Ordering.eq ↦ cmp as' bs
  | Ordering.gt ↦ Ordering.gt
]

abbrev pub sign : Ordering → ℤ
sign Ordering.lt = minus_one
sign Ordering.eq = pos 0
sign Ordering.gt = pos 1

abbrev pub strcmp : Str → Str → ℤ
strcmp a b = sign (cmp a b)

-- The value of a byte as a plain (signed) `char`.
abbrev pub to_char : ℕ → ℤ
to_char c = if ltb c 128 then pos c else negsuc (255 - c)

abbrev pub is_lt : Ordering → Bool
is_lt Ordering.lt = true
is_lt _ = false

abbrev pub is_eq : Ordering → Bool
is_eq Ordering.eq = true
is_eq _ = false
