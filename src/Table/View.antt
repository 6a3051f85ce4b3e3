-- ===== src/Table/View.antt =====
-- What a table of source/table.c stands for: an array of sorted lists, and with them a partial
-- function from keys to bytes.
use kv_storage_service.Common.{
  ℕ, zero, suc, ◌==◌, Bool-cases, inl, inr, ==_iff, ◌+◌, ◌*◌, ◌<◌, ◌≤◌, ◌≡◌, refl, sym, Option,
  none, some, List, [], ◌∷◌, pos, map, All, length, get_or, set, if◌then◌else◌, arith, length-set,
}
use mathlib.Core.Path.{subst}
use kv_storage_service.Machine.{int_max}
use kv_storage_service.Text.{Str, cmp, is_eq}
use kv_storage_service.Text.Order.{eq_of_cmp}
use kv_storage_service.Block.{Bytes}
use kv_storage_service.LinkedList.{LinkedList}
use kv_storage_service.LinkedList.Items.{Items, list_of, find, insert, erase, IsAscending}
use kv_storage_service.Table.{Table}
use kv_storage_service.Table.Hash.{slot, IsPlain}

-- The slots; `none` is a slot whose list was never made.
abbrev pub Buckets : Type 0
Buckets = List (Option Items)

abbrev pub items_of : Option Items → Items
items_of none = []
items_of (some xs) = xs

abbrev pub chain_of : Option Items → Option LinkedList
chain_of none = none
chain_of (some xs) = some (list_of xs)

abbrev pub table_of : Buckets → Table
table_of bs = record { lists = map chain_of bs; size = pos (length bs) }

abbrev pub bucket : Buckets → ℕ → Items
bucket bs i = items_of (get_or bs i none)

abbrev pub Contents : Type 0
Contents = Str → Option Bytes

unfoldable pub view : Buckets → Contents
view bs q = find q (bucket bs (slot (length bs) q))

abbrev pub update : Contents → Str → Option Bytes → Contents
update f k v q = if is_eq (cmp k q) then v else f q

-- how many entries the table has
unfoldable pub total : Buckets → ℕ
total [] = 0
total (b ∷ bs) = length (items_of b) + total bs

-- An item of slot i of n: its key hashes there, and its block is not empty.
pub record IsStored (n i : ℕ) (e : Str × Bytes) : Type 0 where
  pub homed : slot n e.0 ≡ i
  pub plain : IsPlain e.0
  pub filled : 0 < length e.1

-- The invariant of the table.
pub record IsTable (bs : Buckets) : Type 0 where
  pub wide : 0 < length bs
  pub fits : total bs ≤ int_max
  pub ascending : (i : ℕ) → IsAscending (bucket bs i)
  pub stored : (i : ℕ) → All (IsStored (length bs) i) (bucket bs i)

module _ (P : Str × Bytes → Type 0) where
  pub insert-All : (k : Str) (v : Bytes) (xs : Items) → P (k, v) → All P xs → All P (insert k v xs)
  unfolding insert
  insert-All k v [] p a = (p, tt)
  insert-All k v (i ∷ xs) p a = ground (arith, insert-All k v xs)

  pub erase-All : (k : Str) (xs : Items) → All P xs → All P (erase k xs)
  unfolding erase
  erase-All k [] a = tt
  erase-All k (i ∷ xs) a = ground (arith, erase-All k xs)

pub total-set :
    (bs : Buckets) (i : ℕ) (xs : Items)
    → i < length bs
    → total (set bs i (some xs)) + length (bucket bs i) ≡ total bs + length xs
unfolding total
total-set [] i xs lt = absurd (omega arith)
total-set (b ∷ bs) zero xs lt = omega arith
total-set (b ∷ bs) (suc i) xs lt = omega (arith, total-set bs i xs)

pub bucket-le-total : (bs : Buckets) (i : ℕ) → length (bucket bs i) ≤ total bs
unfolding total
bucket-le-total [] i = omega arith
bucket-le-total (b ∷ bs) zero = omega arith
bucket-le-total (b ∷ bs) (suc i) = omega (arith, bucket-le-total bs i)

-- A write to one slot, seen from slot j.
pub bucket-set :
    (bs : Buckets) (i j : ℕ) (xs : Items)
    → i < length bs
    → bucket (set bs i (some xs)) j ≡ (if i == j then xs else bucket bs j)
bucket-set [] i j xs lt = absurd (omega arith)
bucket-set (b ∷ bs) zero zero xs lt = refl
bucket-set (b ∷ bs) zero (suc j) xs lt = ground arith
bucket-set (b ∷ bs) (suc i) zero xs lt = ground arith
bucket-set (b ∷ bs) (suc i) (suc j) xs lt = ground (arith, bucket-set bs i j xs)

-- What holds of the new list and of every old one holds of every list after the write.
set-each :
    (P : ℕ → Items → Type 0) (bs : Buckets) (i : ℕ) (xs : Items)
    → i < length bs
    → P i xs
    → ((j : ℕ) → P j (bucket bs j))
    → (j : ℕ) → P j (bucket (set bs i (some xs)) j)
set-each P bs i xs lt new old j = elim (Bool-cases (i == j)) [
  | inl e ↦
      subst (P j) (sym (bucket-set bs i j xs lt))
        (rw e (subst (λ n. P n xs) ((==_iff i j).0 e) new))
  | inr e ↦ subst (P j) (sym (bucket-set bs i j xs lt)) (rw e (old j))
]

-- A table with one slot rewritten is valid, if its new list is in order and in place.
pub set-IsTable :
    (bs : Buckets) (i : ℕ) (xs : Items)
    → IsTable bs
    → i < length bs
    → IsAscending xs
    → All (IsStored (length bs) i) xs
    → total bs + length xs ≤ int_max + length (bucket bs i)
    → IsTable (set bs i (some xs))
set-IsTable bs i xs t lt a s room = record {
  wide = rw length-set t.wide;
  fits = omega (arith, total-set bs i xs lt);
  ascending = set-each (λ j. IsAscending) bs i xs lt a t.ascending;
  stored = rw length-set (set-each (λ j. All (IsStored (length bs) j)) bs i xs lt s t.stored);
}

-- The abstract table after the list of the key's own slot is rewritten.
pub view-set :
    (bs : Buckets) (k q : Str) (v : Option Bytes) (xs : Items)
    → 0 < length bs
    → find q xs ≡ (if is_eq (cmp k q) then v else find q (bucket bs (slot (length bs) k)))
    → view (set bs (slot (length bs) k) (some xs)) q ≡ update (view bs) k v q
unfolding view
view-set bs k q v xs lt e =
    let n = length bs in
    rw (length-set, bucket-set bs (slot n k) (slot n q) xs (omega arith))
      (ground (arith, e, eq_of_cmp k q, ==_iff (slot n k) (slot n q)))

-- A slot rewritten with the items it has leaves the abstract table as it is.
pub view-set_same :
    (bs : Buckets) (i : ℕ) (q : Str)
    → i < length bs
    → view (set bs i (some (bucket bs i))) q ≡ view bs q
unfolding view
view-set_same bs i q lt =
    rw (length-set, bucket-set bs i (slot (length bs) q) (bucket bs i) lt)
      (ground (arith, ==_iff i (slot (length bs) q)))

-- how many slots have a list
unfoldable pub made : Buckets → ℕ
made [] = 0
made (none ∷ bs) = made bs
made (some xs ∷ bs) = suc (made bs)

abbrev pub lacks : Option Items → ℕ
lacks none = 1
lacks (some xs) = 0

pub made-set :
    (bs : Buckets) (i : ℕ) (xs : Items)
    → i < length bs
    → made (set bs i (some xs)) ≡ made bs + lacks (get_or bs i none)
unfolding made
made-set [] i xs lt = absurd (omega arith)
made-set (none ∷ bs) zero xs lt = omega arith
made-set (some ys ∷ bs) zero xs lt = omega arith
made-set (none ∷ bs) (suc i) xs lt = made-set bs i xs (omega arith)
made-set (some ys ∷ bs) (suc i) xs lt = omega (arith, made-set bs i xs)

-- The allocations that a table holds: itself, its array, its lists, and five for each entry (the
-- node, the entry, the key, the block and the data).
abbrev pub owned : Buckets → ℕ
owned bs = 2 + made bs + 5 * total bs
