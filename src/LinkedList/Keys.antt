-- ===== src/LinkedList/Keys.antt =====
-- `list_get_keys` and `list_free_keys` of source/list.c.
use kv_storage_service.Common.{
  ℕ, suc, ◌+◌, ◌<◌, ◌≡◌, Option, none, some, [], ◌∷◌, pos, map, length, arith, ◌+ℤ◌,
}
use kv_storage_service.Machine.{Heap, IsAmple, grown, released, malloc, free, int_max, add_int}
use kv_storage_service.LinkedList.{
  KeyArray, strdup, copy_keys, keys_of, list_get_keys, free_each, list_free_keys,
}
use kv_storage_service.LinkedList.Items.{Items, entry_of, list_of}

-- the array of the keys, in the order of the list, with its NULL
abbrev pub key_array : Items → KeyArray
key_array [] = none ∷ []
key_array (i ∷ xs) = some i.0 ∷ key_array xs

copy_keys_lem :
    (xs : Items) (h : Heap)
    → IsAmple h
    → copy_keys (suc (length xs)) (map entry_of xs) h ≡ some (key_array xs, grown h (length xs) 0)
unfolding copy_keys strdup malloc
copy_keys_lem [] h e = ground arith
copy_keys_lem (i ∷ xs) h e = ground (arith, copy_keys_lem xs (grown h 1 0) e)

succ_int : (n : ℕ) (h : Heap) → n < int_max → add_int (pos n) (pos 1) h ≡ some (pos (suc n), h)
unfolding ◌+ℤ◌
succ_int n h lt = ground arith

-- The array of the keys of a list, or NULL for a list with no node.
abbrev pub keys_or_null : Items → Option KeyArray
keys_or_null [] = none
keys_or_null (i ∷ xs) = some (key_array (i ∷ xs))

-- the allocations of that array: one for each key and one for the array
abbrev pub key_blocks : Items → ℕ
key_blocks [] = 0
key_blocks (i ∷ xs) = suc (length (i ∷ xs))

pub list_get_keys_lem :
    (xs : Items) (h : Heap)
    → IsAmple h
    → length xs < int_max
    → list_get_keys (some (list_of xs)) h ≡ some (keys_or_null xs, grown h (key_blocks xs) 0)
unfolding list_get_keys keys_of malloc
list_get_keys_lem [] h e room = ground arith
list_get_keys_lem (i ∷ xs) h e room =
    ground (arith, succ_int (length (i ∷ xs)) h room, copy_keys_lem (i ∷ xs) (grown h 1 0) e)

free_each_lem :
    (xs : Items) (h : Heap) → free_each (key_array xs) h ≡ some (tt, released h (length xs))
unfolding free_each free
free_each_lem [] h = ground arith
free_each_lem (i ∷ xs) h = ground (arith, free_each_lem xs (released h 1))

pub list_free_keys_lem :
    (xs : Items) (h : Heap)
    → list_free_keys (some (key_array xs)) h ≡ some (pos 0, released h (length xs + 1))
unfolding list_free_keys free
list_free_keys_lem xs h = ground (arith, free_each_lem xs h)
