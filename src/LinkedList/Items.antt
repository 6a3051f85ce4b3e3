-- ===== src/LinkedList/Items.antt =====
-- What a list of source/list.c stands for: its keys with their bytes, in ascending order.
use kv_storage_service.Common.{
  if◌then◌else◌, suc, ◌≡◌, refl, Option, none, some, List, [], ◌∷◌, Ordering, pos, map, length,
  if◌then◌else◌, arith,
}
use kv_storage_service.Machine.{is_null}
use kv_storage_service.Text.{Str, cmp, is_eq}
use kv_storage_service.Text.Order.{cmp_refl, cmp-flip, eq_of_cmp, cmp_trans}
use kv_storage_service.Block.{Bytes, Block}
use kv_storage_service.Entry.{Entry}
use kv_storage_service.LinkedList.{LinkedList}

abbrev pub Items : Type 0
Items = List (Str × Bytes)

abbrev pub block_of : Bytes → Block
block_of v = record { datasize = pos (length v); buffer = some v }

abbrev pub entry_of : Str × Bytes → Entry
entry_of i = record { key = some i.0; value = some (block_of i.1) }

abbrev pub list_of : Items → LinkedList
list_of xs = record { size = pos (length xs); nodes = map entry_of xs }

-- The abstract view: what is stored under a key.
abbrev pub find : Str → Items → Option Bytes
find q [] = none
find q (i ∷ xs) = if is_eq (cmp i.0 q) then some i.1 else find q xs

unfoldable pub insert : Str → Bytes → Items → Items
insert k v [] = (k, v) ∷ []
insert k v (i ∷ xs) = elim (cmp i.0 k) [
  | Ordering.lt ↦ i ∷ insert k v xs
  | Ordering.eq ↦ (k, v) ∷ xs
  | Ordering.gt ↦ (k, v) ∷ i ∷ xs
]

unfoldable pub erase : Str → Items → Items
erase k [] = []
erase k (i ∷ xs) = elim (cmp i.0 k) [
  | Ordering.lt ↦ i ∷ erase k xs
  | Ordering.eq ↦ xs
  | Ordering.gt ↦ i ∷ xs
]

-- every key of the list comes after k
abbrev pub IsBelow : Str → Items → Type 0
IsBelow k [] = Unit
IsBelow k (i ∷ xs) = (cmp k i.0 ≡ Ordering.lt) × IsBelow k xs

-- the keys ascend strictly, so none occurs twice
abbrev pub IsAscending : Items → Type 0
IsAscending [] = Unit
IsAscending (i ∷ xs) = IsBelow i.0 xs × IsAscending xs

pub IsBelow-trans : (j k : Str) (xs : Items) → cmp j k ≡ Ordering.lt → IsBelow k xs → IsBelow j xs
IsBelow-trans j k [] h b = tt
IsBelow-trans j k (i ∷ xs) h b = (cmp_trans j k i.0 h b.0, IsBelow-trans j k xs h b.1)

pub find-IsBelow : (k : Str) (xs : Items) → IsBelow k xs → find k xs ≡ none
find-IsBelow k [] b = refl
find-IsBelow k (i ∷ xs) b = ground (arith, find-IsBelow k xs, cmp-flip k i.0)

IsBelow-insert :
    (j k : Str) (v : Bytes) (xs : Items)
    → cmp j k ≡ Ordering.lt
    → IsBelow j xs
    → IsBelow j (insert k v xs)
unfolding insert
IsBelow-insert j k v [] h b = (h, tt)
IsBelow-insert j k v (i ∷ xs) h b = ground (arith, IsBelow-insert j k v xs)

pub insert-IsAscending :
    (k : Str) (v : Bytes) (xs : Items) → IsAscending xs → IsAscending (insert k v xs)
unfolding insert
insert-IsAscending k v [] a = (tt, tt)
insert-IsAscending k v (i ∷ xs) a = ground (
  arith,
  insert-IsAscending k v xs,
  IsBelow-insert i.0 k v xs,
  eq_of_cmp i.0 k,
  cmp-flip i.0 k,
  IsBelow-trans k i.0 xs,
)

IsBelow-erase : (j k : Str) (xs : Items) → IsBelow j xs → IsBelow j (erase k xs)
unfolding erase
IsBelow-erase j k [] b = tt
IsBelow-erase j k (i ∷ xs) b = ground (arith, IsBelow-erase j k xs)

pub erase-IsAscending : (k : Str) (xs : Items) → IsAscending xs → IsAscending (erase k xs)
unfolding erase
erase-IsAscending k [] a = tt
erase-IsAscending k (i ∷ xs) a = ground (arith, erase-IsAscending k xs, IsBelow-erase i.0 k xs)

-- A lookup after an insertion: the new value under the key, the old one elsewhere.
pub find-insert :
    (k q : Str) (v : Bytes) (xs : Items)
    → find q (insert k v xs) ≡ (if is_eq (cmp k q) then some v else find q xs)
unfolding insert
find-insert k q v [] = refl
find-insert k q v (i ∷ xs) =
    ground (arith, find-insert k q v xs, eq_of_cmp i.0 k, eq_of_cmp k q, eq_of_cmp i.0 q)

-- A lookup after a removal: nothing under the key, the old value elsewhere.
pub find-erase :
    (k q : Str) (xs : Items)
    → IsAscending xs
    → find q (erase k xs) ≡ (if is_eq (cmp k q) then none else find q xs)
unfolding erase
find-erase k q [] a = ground arith
find-erase k q (i ∷ xs) a = ground (
  arith,
  find-erase k q xs,
  eq_of_cmp i.0 k,
  eq_of_cmp k q,
  eq_of_cmp i.0 q,
  cmp_refl k,
  cmp-flip i.0 k,
  find-IsBelow i.0 xs,
  find-IsBelow k xs,
  IsBelow-trans k i.0 xs,
)

pub length-insert :
    (k : Str) (v : Bytes) (xs : Items)
    → IsAscending xs
    → length (insert k v xs) ≡ (if is_null (find k xs) then suc (length xs) else length xs)
unfolding insert
length-insert k v [] a = refl
length-insert k v (i ∷ xs) a =
    ground (arith, length-insert k v xs, cmp-flip i.0 k, find-IsBelow k xs, IsBelow-trans k i.0 xs)

pub length-erase :
    (k : Str) (xs : Items)
    → IsAscending xs
    → length xs ≡ (if is_null (find k xs) then length (erase k xs) else suc (length (erase k xs)))
unfolding erase
length-erase k [] a = refl
length-erase k (i ∷ xs) a =
    ground (arith, length-erase k xs, cmp-flip i.0 k, find-IsBelow k xs, IsBelow-trans k i.0 xs)
