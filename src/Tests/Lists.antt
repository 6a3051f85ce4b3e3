-- ===== src/Tests/Lists.antt =====
-- source/list.c at concrete lists.
use kv_storage_service.Common.{
  ◌≡◌, refl, ◌⊎◌, none, some, [], ◌∷◌, ℤ, pos, minus_one, if◌then◌else◌, arith, ◌+◌,
}
use kv_storage_service.Machine.{Heap, is_null}
use kv_storage_service.Text.{Str, cmp, is_eq}
use kv_storage_service.LinkedList.{list_add, list_remove}
use kv_storage_service.LinkedList.Items.{Items, entry_of, list_of, find, IsAscending}
use kv_storage_service.LinkedList.Refine.{list_add-update, list_remove-update}
use kv_storage_service.Tests.Tables.{fresh, ab, value}

-- the keys "ab" and "b"
abbrev two_items : Items
two_items = (ab, value) ∷ (98 ∷ [], 7 ∷ []) ∷ []

two_items-IsAscending : IsAscending two_items
unfolding cmp
two_items-IsAscending = ((refl, tt), (tt, tt))

-- the key "ac", between the two
abbrev ac : Str
ac = 97 ∷ 99 ∷ []

list_add-update_example :
    (code : ℤ) × (ys : Items) × (h' : Heap) × (list_add
        (some (list_of two_items))
        (some (entry_of (ac, 5 ∷ [])))
        fresh
      ≡ some ((code, some (list_of ys)), h'))
    × IsAscending ys
    × (((code ≡ (if is_null (find ac two_items) then pos 0 else pos 1))
          × ((q : Str)
              → find q ys ≡ (if is_eq (cmp ac q) then some (5 ∷ []) else find q two_items)))
        ⊎ ((code ≡ minus_one) × (find ac two_items ≡ none) × (ys ≡ two_items)))
list_add-update_example =
    list_add-update two_items ac (5 ∷ []) fresh two_items-IsAscending (omega arith)

list_remove-update_example :
    (ys : Items) × (list_remove (some (list_of two_items)) (some ab) fresh ≡ (
      if is_null (find ab two_items)
      then some ((pos 1, some (list_of two_items)), fresh)
      else some ((pos 0, some (list_of ys)), record fresh { frees = fresh.frees + 5 })))
    × IsAscending ys
    × ((q : Str) → find q ys ≡ (if is_eq (cmp ab q) then none else find q two_items))
list_remove-update_example =
    list_remove-update two_items ab fresh two_items-IsAscending (omega arith)
