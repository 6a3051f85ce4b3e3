-- ===== src/LinkedList/Canonical.antt =====
-- The entries of a list of source/list.c are fixed by what it holds: the order of strcmp leaves one
-- way to store a map.
use kv_storage_service.Common.{
  ◌≡◌, refl, sym, ap, ◌∙◌, inl, inr, none, some, [], ◌∷◌, Ordering, arith,
}
use kv_storage_service.Text.{Str, cmp}
use kv_storage_service.Text.Order.{cmp_refl, eq_of_cmp}
use kv_storage_service.Block.{Bytes}
use kv_storage_service.LinkedList.Items.{Items, find, IsAscending, find-IsBelow, IsBelow-trans}
use kv_storage_service.Members.Choice.{cmp-cases}

pub find-head : (i : Str × Bytes) (xs : Items) → find i.0 (i ∷ xs) ≡ some i.1
find-head i xs = ground (arith, cmp_refl i.0)

-- A key before all keys of a list is not in it.
find-before :
    (k : Str) (j : Str × Bytes) (ys : Items)
    → cmp k j.0 ≡ Ordering.lt
    → IsAscending (j ∷ ys)
    → find k (j ∷ ys) ≡ none
find-before k j ys lt (below, a) = find-IsBelow k (j ∷ ys) (lt, IsBelow-trans k j.0 ys lt below)

find-tail :
    (i j : Str × Bytes) (xs ys : Items) (q : Str)
    → i.0 ≡ j.0
    → IsAscending (i ∷ xs)
    → IsAscending (j ∷ ys)
    → find q (i ∷ xs) ≡ find q (j ∷ ys)
    → find q xs ≡ find q ys
find-tail i j xs ys q same (a, _) (b, _) e = ground (
  arith,
  find-IsBelow i.0 xs a,
  find-IsBelow j.0 ys b,
  eq_of_cmp i.0 q,
  eq_of_cmp j.0 q,
  cmp_refl q,
)

some_inj : (v w : Bytes) → some v ≡ some w → v ≡ w
some_inj v w e = cc

some_ne : (v : Bytes) → some v ≡ none → ⊥
some_ne v e = cc

pub find-injective :
    (xs ys : Items)
    → IsAscending xs
    → IsAscending ys
    → ((q : Str) → find q xs ≡ find q ys)
    → xs ≡ ys
find-injective [] [] a b e = refl
find-injective [] (j ∷ ys) a b e = absurd (some_ne j.1 (sym (find-head j ys) ∙ sym (e j.0)))
find-injective (i ∷ xs) [] a b e = absurd (some_ne i.1 (sym (find-head i xs) ∙ e i.0))
find-injective (i ∷ xs) (j ∷ ys) a b e = elim (cmp-cases i.0 j.0) [
  | inl lt ↦ absurd (some_ne i.1 (sym (find-head i xs) ∙ e i.0 ∙ find-before i.0 j ys lt b))
  | inr (inr gt) ↦
      absurd (some_ne j.1 (sym (find-head j ys) ∙ sym (e j.0) ∙ find-before j.0 i xs gt a))
  | inr (inl same) ↦
      let value : i.1 ≡ j.1 =
        some_inj i.1 j.1
          (sym (find-head i xs) ∙ e i.0 ∙ ap (λ k. find k (j ∷ ys)) same ∙ find-head j ys) in
      let rest : xs ≡ ys =
        find-injective xs ys a.1 b.1 (λ q. find-tail i j xs ys q same a b (e q)) in
      λ t. (same t, value t) ∷ rest t
]
