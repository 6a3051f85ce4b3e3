-- ===== src/LinkedList/Loops.antt =====
-- The loops of source/list.c over the entries of a list that stands for `xs`: none of them
-- meets undefined behaviour, and each stops where the abstract list says.
use kv_storage_service.Common.{
  ◌≡◌, refl, Option, none, some, [], ◌∷◌, ◌++◌, List, Ordering, pos, map, arith,
}
use kv_storage_service.Machine.{Heap, released, free}
use kv_storage_service.Text.{Str, cmp, sign}
use kv_storage_service.Text.Order.{cmp-flip, eq_of_cmp}
use kv_storage_service.Block.{Bytes, block_destroy}
use kv_storage_service.Entry.{Entry, entry_compare, entry_destroy}
use kv_storage_service.LinkedList.{seek, find_entry, seek_key}
use kv_storage_service.LinkedList.Items.{
  Items, entry_of, find, insert, erase, IsAscending, find-IsBelow, IsBelow-trans,
}

pub entry_compare_lem :
    (i j : Str × Bytes) (h : Heap)
    → entry_compare (some (entry_of i)) (some (entry_of j)) h ≡ some (sign (cmp i.0 j.0), h)
unfolding entry_compare
entry_compare_lem i j h = refl

-- An entry is four allocations: its key, its data, its block and itself.
pub entry_destroy_lem :
    (i : Str × Bytes) (h : Heap) → entry_destroy (some (entry_of i)) h ≡ some (pos 0, released h 4)
unfolding entry_destroy block_destroy free
entry_destroy_lem i h = ground arith

-- the items that the loop passes, and those from the first key that is not below k
abbrev pub below : Str → Items → Items
below k [] = []
below k (i ∷ xs) = elim (cmp i.0 k) [ Ordering.lt ↦ i ∷ below k xs | _ ↦ [] ]

abbrev pub from : Str → Items → Items
from k [] = []
from k (i ∷ xs) = elim (cmp i.0 k) [ Ordering.lt ↦ from k xs | _ ↦ i ∷ xs ]

pub seek_lem :
    (i : Str × Bytes) (xs : Items) (h : Heap)
    → seek (entry_of i) (map entry_of xs) h
      ≡ some ((map entry_of (below i.0 xs), map entry_of (from i.0 xs)), h)
unfolding seek entry_compare
seek_lem i [] h = refl
seek_lem i (j ∷ xs) h = ground (arith, seek_lem i xs h)

-- the items after the one with key k
abbrev pub beyond : Str → Items → Items
beyond k [] = []
beyond k (i ∷ xs) = elim (cmp i.0 k) [ Ordering.lt ↦ beyond k xs | _ ↦ xs ]

abbrev pub entry_at : Str → Option Bytes → Option Entry
entry_at k none = none
entry_at k (some v) = some (entry_of (k, v))

pub find_entry_lem :
    (k : Str) (xs : Items) (h : Heap)
    → IsAscending xs
    → find_entry k (map entry_of xs) h ≡ some (entry_at k (find k xs), h)
unfolding find_entry
find_entry_lem k [] h a = refl
find_entry_lem k (i ∷ xs) h a = ground (
  arith,
  find_entry_lem k xs h,
  eq_of_cmp i.0 k,
  cmp-flip i.0 k,
  find-IsBelow k xs,
  IsBelow-trans k i.0 xs,
)

-- Where the key is absent, the loop of `list_add` stops where the new item belongs.
pub append-absent :
    (k : Str) (v : Bytes) (xs : Items)
    → IsAscending xs
    → find k xs ≡ none
    → map entry_of (below k xs) ++ entry_of (k, v) ∷ map entry_of (from k xs)
      ≡ map entry_of (insert k v xs)
unfolding insert
append-absent k v [] a e = refl
append-absent k v (i ∷ xs) a e = ground (arith, append-absent k v xs)

-- Where the key is present, it stops at the item with that key.
pub append-present :
    (k : Str) (v w : Bytes) (xs : Items)
    → IsAscending xs
    → find k xs ≡ some w
    → map entry_of (below k xs) ++ entry_of (k, v) ∷ map entry_of (beyond k xs)
      ≡ map entry_of (insert k v xs)
unfolding insert
append-present k v w [] a e = ground arith
append-present k v w (i ∷ xs) a e =
    ground
      (arith, append-present k v w xs, cmp-flip i.0 k, find-IsBelow k xs, IsBelow-trans k i.0 xs)

pub from-present :
    (k : Str) (w : Bytes) (xs : Items)
    → IsAscending xs
    → find k xs ≡ some w
    → from k xs ≡ (k, w) ∷ beyond k xs
from-present k w [] a e = ground arith
from-present k w (i ∷ xs) a e = ground (
  arith,
  from-present k w xs,
  eq_of_cmp i.0 k,
  cmp-flip i.0 k,
  find-IsBelow k xs,
  IsBelow-trans k i.0 xs,
)

pub erase-present :
    (k : Str) (w : Bytes) (xs : Items)
    → IsAscending xs
    → find k xs ≡ some w
    → map entry_of (below k xs) ++ map entry_of (beyond k xs) ≡ map entry_of (erase k xs)
unfolding erase
erase-present k w [] a e = ground arith
erase-present k w (i ∷ xs) a e =
    ground (arith, erase-present k w xs, cmp-flip i.0 k, find-IsBelow k xs, IsBelow-trans k i.0 xs)

-- The same search in `list_remove`: the item with the key, between those before and after it.
abbrev pub node_at : Str → Items → Option Bytes → Option (List Entry × Entry × List Entry)
node_at k xs none = none
node_at k xs (some v) =
    some (map entry_of (below k xs), entry_of (k, v), map entry_of (beyond k xs))

pub seek_key_lem :
    (k : Str) (xs : Items) (h : Heap)
    → IsAscending xs
    → seek_key k (map entry_of xs) h ≡ some (node_at k xs (find k xs), h)
unfolding seek_key
seek_key_lem k [] h a = refl
seek_key_lem k (i ∷ xs) h a = ground (
  arith,
  seek_key_lem k xs h,
  eq_of_cmp i.0 k,
  cmp-flip i.0 k,
  find-IsBelow k xs,
  IsBelow-trans k i.0 xs,
)
