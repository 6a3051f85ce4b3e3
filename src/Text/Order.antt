-- ===== src/Text/Order.antt =====
-- The order of strings is a strict linear order.
use kv_storage_service.Common.{◌≡◌, refl, Ordering, [], ◌∷◌, arith}
use kv_storage_service.Text.{Str, cmp}

abbrev pub flip : Ordering → Ordering
flip Ordering.lt = Ordering.gt
flip Ordering.eq = Ordering.eq
flip Ordering.gt = Ordering.lt

pub cmp_refl : (a : Str) → cmp a a ≡ Ordering.eq
unfolding cmp
cmp_refl [] = refl
cmp_refl (x ∷ a) = ground (arith, cmp_refl a)

pub cmp-flip : (a b : Str) → cmp b a ≡ flip (cmp a b)
unfolding cmp
cmp-flip [] [] = refl
cmp-flip [] (y ∷ b) = refl
cmp-flip (x ∷ a) [] = refl
cmp-flip (x ∷ a) (y ∷ b) = ground (arith, cmp-flip a b)

pub eq_of_cmp : (a b : Str) → cmp a b ≡ Ordering.eq → a ≡ b
unfolding cmp
eq_of_cmp [] [] h = refl
eq_of_cmp [] (y ∷ b) h = ground arith
eq_of_cmp (x ∷ a) [] h = ground arith
eq_of_cmp (x ∷ a) (y ∷ b) h = ground (arith, eq_of_cmp a b)

pub cmp_trans :
    (a b c : Str) → cmp a b ≡ Ordering.lt → cmp b c ≡ Ordering.lt → cmp a c ≡ Ordering.lt
unfolding cmp
cmp_trans [] [] c h k = ground arith
cmp_trans [] (y ∷ b) [] h k = ground arith
cmp_trans [] (y ∷ b) (z ∷ c) h k = refl
cmp_trans (x ∷ a) [] c h k = ground arith
cmp_trans (x ∷ a) (y ∷ b) [] h k = ground arith
cmp_trans (x ∷ a) (y ∷ b) (z ∷ c) h k = ground (arith, cmp_trans a b c)
