-- ===== src/Table/Walk.antt =====
-- `table_create`, and the operations of source/table.c that walk all the slots: `table_size`,
-- `table_get_keys` and `table_destroy`.
use kv_storage_service.Common.{
  ◌-◌, minus_one, ℕ, zero, suc, ◌+◌, ◌*◌, ◌<◌, ◌≤◌, ◌≡◌, ◌∙◌, none, some, List, [], ◌∷◌, ◌++◌, ℤ,
  pos, length, map, arith, ◌+ℤ◌,
}
use mathlib.Core.List.{map-append, append_assoc}
use kv_storage_service.Machine.{
  Heap, IsAmple, grown, released, malloc, free, int_max, add_int, ◌>>=◌,
}
use kv_storage_service.Text.{Str}
use kv_storage_service.LinkedList.{strdup, list_size, list_free_keys}
use kv_storage_service.LinkedList.Items.{Items}
use kv_storage_service.LinkedList.Get.{list_destroy_lem}
use kv_storage_service.LinkedList.Keys.{
  key_array, keys_or_null, key_blocks, list_get_keys_lem, list_free_keys_lem,
}
use kv_storage_service.Table.{
  sum_sizes, table_size, copy_array, array_or_empty, collect, destroy_lists, table_destroy,
}
use kv_storage_service.Table.View.{Buckets, chain_of, table_of, items_of, total, made, owned}

pub add_sizes :
    (a b : ℕ) (h : Heap) → a + b ≤ int_max → add_int (pos a) (pos b) h ≡ some (pos (a + b), h)
unfolding ◌+ℤ◌
add_sizes a b h le = ground arith

sum_sizes_lem :
    (bs : Buckets) (a : ℕ) (h : Heap)
    → a + total bs ≤ int_max
    → sum_sizes (length bs) (map chain_of bs) (pos a) h ≡ some (pos (a + total bs), h)
unfolding sum_sizes total list_size
sum_sizes_lem [] a h le = ground arith
sum_sizes_lem (none ∷ bs) a h le = ground (arith, sum_sizes_lem bs a h)
sum_sizes_lem (some xs ∷ bs) a h le =
    ground (arith, add_sizes a (length xs) h, sum_sizes_lem bs (a + length xs) h)

-- `table_size` returns the number of keys of the table, where that number is an int, and changes
-- nothing.
pub table_size_lem :
    (bs : Buckets) (h : Heap)
    → total bs ≤ int_max
    → table_size (some (table_of bs)) h ≡ some (pos (total bs), h)
unfolding table_size
table_size_lem bs h le = ground (arith, sum_sizes_lem bs 0 h)

destroy_lists_lem :
    (bs : Buckets) (h : Heap)
    → destroy_lists (length bs) (map chain_of bs) h ≡ some (tt, released h (made bs + 5 * total bs))
unfolding destroy_lists total made
destroy_lists_lem [] h = ground arith
destroy_lists_lem (none ∷ bs) h = ground (arith, destroy_lists_lem bs h)
destroy_lists_lem (some xs ∷ bs) h =
    ground (arith, list_destroy_lem xs h, destroy_lists_lem bs (released h (5 * length xs + 1)))

-- `table_destroy` gives back exactly the allocations that the table holds, each once.
pub table_destroy_lem :
    (bs : Buckets) (h : Heap)
    → table_destroy (some (table_of bs)) h ≡ some (pos 0, released h (owned bs))
unfolding table_destroy free
table_destroy_lem bs h = ground (arith, destroy_lists_lem bs h)

-- The keys of a list, and of all the slots in order.
abbrev pub keys_in : Items → List Str
keys_in [] = []
keys_in (i ∷ xs) = i.0 ∷ keys_in xs

unfoldable pub all_keys : Buckets → List Str
all_keys [] = []
all_keys (b ∷ bs) = keys_in (items_of b) ++ all_keys bs

-- What the temporary arrays of the walk take and give back.
unfoldable pub temporaries : Buckets → ℕ
temporaries [] = 0
temporaries (b ∷ bs) = key_blocks (items_of b) + temporaries bs

copy_array_lem :
    (xs : Items) (room : ℕ) (h : Heap)
    → IsAmple h
    → length xs ≤ room
    → copy_array (length xs) room (key_array xs) h
      ≡ some ((map some (keys_in xs), room - length xs), grown h (length xs) 0)
unfolding copy_array strdup malloc
copy_array_lem [] room h e le = ground arith
copy_array_lem (i ∷ xs) zero h e le = absurd (omega arith)
copy_array_lem (i ∷ xs) (suc room) h e le = ground (arith, copy_array_lem xs room (grown h 1 0) e)

-- One list of the walk: its keys are copied, and its temporary array is freed.
copy_list :
    (xs : Items) (room : ℕ) (h : Heap)
    → IsAmple h
    → length xs ≤ room
    → copy_array (length xs) room (array_or_empty (keys_or_null xs)) h
      ≡ some ((map some (keys_in xs), room - length xs), grown h (length xs) 0)
unfolding copy_array
copy_list [] room h e le = ground arith
copy_list (i ∷ xs) room h e le = copy_array_lem (i ∷ xs) room h e le

free_list :
    (xs : Items) (h : Heap)
    → (c : ℤ) × (list_free_keys (keys_or_null xs) h ≡ some (c, released h (key_blocks xs)))
free_list [] h = (minus_one, unfold list_free_keys in (ground arith))
free_list (i ∷ xs) h = (pos 0, list_free_keys_lem (i ∷ xs) h ∙ ground arith)

pub collect_lem :
    (bs : Buckets) (room : ℕ) (h : Heap)
    → IsAmple h
    → total bs < room
    → room ≤ int_max
    → collect (length bs) room (map chain_of bs) h
      ≡ some (
        map some (all_keys bs) ++ none ∷ [],
        grown h (temporaries bs + total bs) (temporaries bs),
      )
unfolding collect all_keys temporaries total list_size
collect_lem [] zero h e lt fit = absurd (omega arith)
collect_lem [] (suc room) h e lt fit = ground arith
collect_lem (none ∷ bs) room h e lt fit = ground (arith, collect_lem bs room h)
collect_lem (some xs ∷ bs) room h e lt fit =
    let g = grown (grown h (key_blocks xs) 0) (length xs) 0 in
    let (c, freed) = free_list xs g in
    rw (list_get_keys_lem xs h e (omega arith), ◌>>=◌)
      (rw (copy_list xs room (grown h (key_blocks xs) 0) e (omega arith), ◌>>=◌)
        (rw (freed, ◌>>=◌)
          (rw
            (
              collect_lem bs (room - length xs) (released g (key_blocks xs)) e (omega arith)
                  (omega arith),
              ◌>>=◌,
            )
            (rw (map-append, append_assoc) (ground arith)))))
