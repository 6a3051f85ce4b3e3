-- ===== src/LinkedList/Refine.antt =====
-- `list_add` and `list_remove` of source/list.c as operations on a finite map in ascending order.
use kv_storage_service.Common.{
  ◌+◌, ◌<◌, ◌≤◌, ◌≡◌, refl, ◌∙◌, ◌⊎◌, inl, inr, none, some, ℤ, pos, minus_one, length,
  if◌then◌else◌, Option-cases, Bool-cases,
}
use kv_storage_service.Machine.{Heap, answer, int_max, is_null}
use kv_storage_service.Text.{Str, cmp, is_eq}
use kv_storage_service.Block.{Bytes}
use kv_storage_service.LinkedList.{list_add, list_remove}
use kv_storage_service.LinkedList.Items.{
  Items, entry_of, list_of, find, insert, erase, IsAscending, insert-IsAscending, erase-IsAscending,
  find-insert, find-erase,
}
use kv_storage_service.LinkedList.Add.{added_heap, list_add_lem}
use kv_storage_service.LinkedList.Remove.{list_remove_lem}

-- On an ascending list with room for one more entry, `list_add` keeps the order, whatever malloc
-- answers. It returns 0 or 1, as the key is new or not, and then only the key's value has changed,
-- to the new one; or -1 where the node of a new key is refused, and then the list is as it was.
pub list_add-update :
    (xs : Items) (k : Str) (v : Bytes) (h : Heap)
    → IsAscending xs
    → length xs < int_max
    → (code : ℤ) × (ys : Items) × (h' : Heap) × (list_add
          (some (list_of xs))
          (some (entry_of (k, v)))
          h
        ≡ some ((code, some (list_of ys)), h'))
      × IsAscending ys
      × (((code ≡ (if is_null (find k xs) then pos 0 else pos 1))
            × ((q : Str) → find q ys ≡ (if is_eq (cmp k q) then some v else find q xs)))
          ⊎ ((code ≡ minus_one) × (find k xs ≡ none) × (ys ≡ xs)))
list_add-update xs k v h a room = elim (Option-cases (find k xs)) [
  | inr (w, e) ↦ (
    pos 1,
    insert k v xs,
    added_heap xs k h,
    list_add_lem xs k v h a room ∙ rw e,
    insert-IsAscending k v xs a,
    inl (rw e, λ q. find-insert k q v xs),
  )
  | inl e ↦ elim (Bool-cases (answer h.answers)) [
    | inl b ↦ (
      pos 0,
      insert k v xs,
      added_heap xs k h,
      list_add_lem xs k v h a room ∙ rw (e, b),
      insert-IsAscending k v xs a,
      inl (rw e, λ q. find-insert k q v xs),
    )
    | inr b ↦ (
      minus_one,
      xs,
      added_heap xs k h,
      list_add_lem xs k v h a room ∙ rw (e, b),
      a,
      inr (refl, e, refl),
    )
  ]
]

-- On an ascending list of at most 2^31 - 1 entries, `list_remove` keeps the order. It returns 0
-- and takes exactly the key out where it is there, giving back the five allocations of its node;
-- else it returns 1 and changes nothing.
pub list_remove-update :
    (xs : Items) (k : Str) (h : Heap)
    → IsAscending xs
    → length xs ≤ int_max
    → (ys : Items) × (list_remove (some (list_of xs)) (some k) h ≡ (
        if is_null (find k xs)
        then some ((pos 1, some (list_of xs)), h)
        else some ((pos 0, some (list_of ys)), record h { frees = h.frees + 5 })))
      × IsAscending ys
      × ((q : Str) → find q ys ≡ (if is_eq (cmp k q) then none else find q xs))
list_remove-update xs k h a fit =
    (erase k xs, list_remove_lem xs k h a fit, erase-IsAscending k xs a, λ q. find-erase k q xs a)
