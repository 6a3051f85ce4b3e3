-- ===== src/LinkedList/Add.antt =====
-- `list_add` of source/list.c refines the insertion into the abstract list.
use kv_storage_service.Common.{
  ℕ, suc, ◌<◌, ◌≡◌, refl, none, some, [], ◌∷◌, pos, map, length, if◌then◌else◌, minus_one, arith,
  ◌+ℤ◌, Option-cases, ℤ, List, inl, inr,
}
use kv_storage_service.Machine.{
  Heap, asked, released, answer, malloc, int_max, is_null, add_int, ◌>>=◌,
}
use kv_storage_service.Text.{Str}
use kv_storage_service.Text.Order.{cmp_refl}
use kv_storage_service.Block.{Bytes}
use kv_storage_service.Entry.{Entry, entry_compare}
use kv_storage_service.LinkedList.{LinkedList, link, place, list_add}
use kv_storage_service.LinkedList.Items.{
  Items, entry_of, list_of, find, insert, IsAscending, length-insert,
}
use kv_storage_service.LinkedList.Loops.{
  entry_destroy_lem, seek_lem, below, from, append-absent, append-present, from-present,
}

-- `place` makes a new node wherever the abstract list has no such key.
place-absent :
    (l : LinkedList) (k : Str) (v : Bytes) (xs : Items) (passed : List Entry) (h : Heap)
    → IsAscending xs
    → find k xs ≡ none
    → place l (entry_of (k, v)) passed (map entry_of (from k xs)) h
      ≡ link l (entry_of (k, v)) passed (map entry_of (from k xs)) h
unfolding place entry_compare
place-absent l k v [] passed h a e = refl
place-absent l k v (i ∷ xs) passed h a e = ground (arith, place-absent l k v xs passed h)

succ_int : (n : ℕ) (h : Heap) → n < int_max → add_int (pos n) (pos 1) h ≡ some (pos (suc n), h)
unfolding ◌+ℤ◌
succ_int n h lt = ground arith

module _ (xs : Items) (k : Str) (v : Bytes) (h : Heap) (a : IsAscending xs) where
  link_lem :
      length xs < int_max
      → find k xs ≡ none
      → link (list_of xs) (entry_of (k, v)) (map entry_of (below k xs)) (map entry_of (from k xs)) h
        ≡ (if answer h.answers
            then some ((pos 0, list_of (insert k v xs)), asked h)
            else some ((minus_one, list_of xs), asked h))
  unfolding link malloc
  link_lem room e =
      ground (
        arith,
        append-absent k v xs a e,
        length-insert k v xs a,
        succ_int (length xs) (asked h) room,
      )

  place-present :
      (w : Bytes)
      → find k xs ≡ some w
      → place
          (list_of xs)
          (entry_of (k, v))
          (map entry_of (below k xs))
          (map entry_of (from k xs))
          h
        ≡ some ((pos 1, list_of (insert k v xs)), released h 4)
  unfolding place entry_compare
  place-present w e =
      rw (from-present k w xs a e, cmp_refl)
        (ground
          (arith, entry_destroy_lem (k, w) h, append-present k v w xs a e, length-insert k v xs a))

-- what `list_add` returns, the items that it leaves, and the heap, by the presence of the key and
-- by malloc's answer
abbrev pub added_code : Items → Str → Heap → ℤ
added_code xs k h =
    if is_null (find k xs) then (if answer h.answers then pos 0 else minus_one) else pos 1

abbrev pub added : Items → Str → Bytes → Heap → Items
added xs k v h =
    if is_null (find k xs) then (if answer h.answers then insert k v xs else xs) else insert k v xs

abbrev pub added_heap : Items → Str → Heap → Heap
added_heap xs k h = if is_null (find k xs) then asked h else released h 4

pub list_add_lem :
    (xs : Items) (k : Str) (v : Bytes) (h : Heap)
    → IsAscending xs
    → length xs < int_max
    → list_add (some (list_of xs)) (some (entry_of (k, v))) h
      ≡ some ((added_code xs k h, some (list_of (added xs k v h))), added_heap xs k h)
unfolding list_add
list_add_lem xs k v h a room = elim (Option-cases (find k xs)) [
  | inl e ↦
      rw (seek_lem (k, v) xs h, ◌>>=◌, place-absent, e, link_lem xs k v h a room e) (ground arith)
  | inr (w, e) ↦ rw (seek_lem (k, v) xs h, ◌>>=◌, place-present xs k v h a w e, e)
]
