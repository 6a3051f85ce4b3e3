-- ===== src/LinkedList/Remove.antt =====
-- `list_remove` of source/list.c refines the removal from the abstract list.
use kv_storage_service.Common.{
  ℕ, suc, ◌≤◌, ◌≡◌, Option, some, pos, ℤ, minus_one, length, if◌then◌else◌, arith, Option-cases,
  inl, inr, ◌+ℤ◌,
}
use kv_storage_service.Machine.{Heap, released, free, int_max, is_null, add_int}
use kv_storage_service.Text.{Str}
use kv_storage_service.LinkedList.{LinkedList, unlink, list_remove}
use kv_storage_service.LinkedList.Items.{Items, list_of, find, erase, IsAscending, length-erase}
use kv_storage_service.LinkedList.Loops.{seek_key_lem, entry_destroy_lem, erase-present}

pred_int :
    (n : ℕ) (h : Heap) → suc n ≤ int_max → add_int (pos (suc n)) minus_one h ≡ some (pos n, h)
unfolding ◌+ℤ◌
pred_int n h le = ground arith

-- what `list_remove` does to the abstract list
abbrev pub removed : Items → Str → Heap → Option ((ℤ × Option LinkedList) × Heap)
removed xs k h =
    if is_null (find k xs)
    then some ((pos 1, some (list_of xs)), h)
    else some ((pos 0, some (list_of (erase k xs))), released h 5)

pub list_remove_lem :
    (xs : Items) (k : Str) (h : Heap)
    → IsAscending xs
    → length xs ≤ int_max
    → list_remove (some (list_of xs)) (some k) h ≡ removed xs k h
unfolding list_remove unlink free
list_remove_lem xs k h a fit = elim (Option-cases (find k xs)) [
  | inl e ↦ ground (arith, seek_key_lem k xs h a)
  | inr (w, e) ↦ ground (
    arith,
    seek_key_lem k xs h a,
    entry_destroy_lem (k, w) h,
    erase-present k w xs a e,
    length-erase k xs a,
    pred_int (length (erase k xs)) (released (released h 4) 1),
  )
]
