-- ===== src/Table/Listing.antt =====
-- All entries of a table, slot by slot, and the map that storing them one after the other makes.
use kv_storage_service.Common.{
  ℕ, zero, suc, ◌<◌, ◌≡◌, ◌≢◌, refl, ap, ◌∙◌, Option, none, some, [], ◌∷◌, ◌++◌, All, length,
  length-append, Option-cases, inl, inr, arith,
}
use kv_storage_service.Text.{Str}
use kv_storage_service.Block.{Bytes}
use kv_storage_service.LinkedList.Items.{Items, find}
use kv_storage_service.Table.Hash.{slot}
use kv_storage_service.Table.View.{
  Buckets, Contents, bucket, items_of, view, update, total, IsTable,
}
use kv_storage_service.Table.Walk.{all_keys, keys_in}
use kv_storage_service.Table.Keys.{occurs, found, occurs-all_keys, elsewhere}

unfoldable pub all_items : Buckets → Items
all_items [] = []
all_items (b ∷ bs) = items_of b ++ all_items bs

-- The map after the entries of a list are stored in order.
unfoldable pub load : Items → Contents → Contents
load [] f = f
load (i ∷ xs) f = load xs (update f i.0 (some i.1))

pub length-all_items : (bs : Buckets) → length (all_items bs) ≡ total bs
unfolding all_items total
length-all_items [] = refl
length-all_items (b ∷ bs) =
    omega (arith, length-append (items_of b) (all_items bs), length-all_items bs)

keys_in-append : (xs ys : Items) → keys_in (xs ++ ys) ≡ keys_in xs ++ keys_in ys
keys_in-append [] ys = refl
keys_in-append (i ∷ xs) ys = ap (λ t. i.0 ∷ t) (keys_in-append xs ys)

pub keys_in-all_items : (bs : Buckets) → keys_in (all_items bs) ≡ all_keys bs
unfolding all_items all_keys
keys_in-all_items [] = refl
keys_in-all_items (b ∷ bs) =
    keys_in-append (items_of b) (all_items bs)
    ∙ ap (λ t. keys_in (items_of b) ++ t) (keys_in-all_items bs)

-- the first of two answers
abbrev pub either_of {ℓ} : {A : Type ℓ} → Option A → Option A → Option A
either_of none o = o
either_of (some a) o = some a

either_of-none {ℓ} : {A : Type ℓ} (o : Option A) → either_of o none ≡ o
either_of-none none = refl
either_of-none (some a) = refl

find-append : (q : Str) (xs ys : Items) → find q (xs ++ ys) ≡ either_of (find q xs) (find q ys)
find-append q [] ys = refl
find-append q (i ∷ xs) ys = ground (arith, find-append q xs ys)

find-nowhere :
    (q : Str) (bs : Buckets)
    → ((i : ℕ) → find q (bucket bs i) ≡ none)
    → find q (all_items bs) ≡ none
unfolding all_items
find-nowhere q [] n = refl
find-nowhere q (b ∷ bs) n =
    find-append q (items_of b) (all_items bs) ∙ rw (n 0, find-nowhere q bs (λ i. n (suc i))) refl

find-only :
    (q : Str) (bs : Buckets) (j : ℕ)
    → ((i : ℕ) → i ≢ j → find q (bucket bs i) ≡ none)
    → find q (all_items bs) ≡ find q (bucket bs j)
unfolding all_items
find-only q [] j n = refl
find-only q (b ∷ bs) zero n =
    find-append q (items_of b) (all_items bs)
    ∙ rw (find-nowhere q bs (λ i. n (suc i) (omega arith))) (either_of-none (find q (items_of b)))
find-only q (b ∷ bs) (suc j) n =
    find-append q (items_of b) (all_items bs)
    ∙ rw (n 0 (omega arith), find-only q bs j (λ i e. n (suc i) (omega arith))) refl

pub find-all_items : (bs : Buckets) (q : Str) → IsTable bs → find q (all_items bs) ≡ view bs q
unfolding view
find-all_items bs q t = find-only q bs (slot (length bs) q) (elsewhere q bs t)

found-occurs : (q : Str) (xs : Items) → occurs q (keys_in xs) ≡ 0 → find q xs ≡ none
found-occurs q [] e = refl
found-occurs q (i ∷ xs) e = ground (arith, found-occurs q xs)

All-append : (P : Str × Bytes → Type 0) (xs ys : Items) → All P xs → All P ys → All P (xs ++ ys)
All-append P [] ys a b = b
All-append P (i ∷ xs) ys (p, a) b = (p, All-append P xs ys a b)

-- Where no key stands twice, the order of storing does not matter.
load-find :
    (q : Str) (xs : Items) (f : Contents)
    → occurs q (keys_in xs) < 2
    → load xs f q ≡ either_of (find q xs) (f q)
unfolding load
load-find q [] f lt = refl
load-find q (i ∷ xs) f lt =
    load-find q xs (update f i.0 (some i.1)) (omega arith) ∙ ground (arith, found-occurs q xs)

-- Storing all entries of a valid table one after the other carries its contents over.
pub load-all_items :
    (bs : Buckets) (f : Contents) (q : Str)
    → IsTable bs
    → load (all_items bs) f q ≡ either_of (view bs q) (f q)
load-all_items bs f q t =
    let once : occurs q (keys_in (all_items bs)) ≡ found (view bs q) =
      ap (occurs q) (keys_in-all_items bs) ∙ occurs-all_keys q bs t in
    load-find q (all_items bs) f (elim (Option-cases (view bs q)) [
      | inl e ↦ omega (arith, once, ap found e)
      | inr (v, e) ↦ omega (arith, once, ap found e)
    ])
    ∙ ap (λ o. either_of o (f q)) (find-all_items bs q t)

-- What holds of the entries of each slot holds of all of them.
pub all_items-All :
    (P : Str × Bytes → Type 0) (bs : Buckets)
    → ((i : ℕ) → All P (bucket bs i))
    → All P (all_items bs)
unfolding all_items
all_items-All P [] a = tt
all_items-All P (b ∷ bs) a =
    All-append P (items_of b) (all_items bs) (a 0) (all_items-All P bs (λ i. a (suc i)))
