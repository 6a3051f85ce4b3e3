-- ===== src/LinkedList/Get.antt =====
-- `list_get` and `list_destroy` of source/list.c on a list that stands for `xs`.
use kv_storage_service.Common.{◌+◌, ◌*◌, ◌≡◌, some, [], ◌∷◌, pos, map, length, arith}
use kv_storage_service.Machine.{Heap, released, free}
use kv_storage_service.Text.{Str}
use kv_storage_service.LinkedList.{list_get, destroy_nodes, list_destroy}
use kv_storage_service.LinkedList.Items.{Items, entry_of, list_of, find, IsAscending}
use kv_storage_service.LinkedList.Loops.{entry_at, find_entry_lem, entry_destroy_lem}

-- On an ascending list `list_get` returns the entry with the key, and NULL where there is none: to
-- stop at the first greater key misses nothing.
pub list_get_lem :
    (xs : Items) (k : Str) (h : Heap)
    → IsAscending xs
    → list_get (some (list_of xs)) (some k) h ≡ some (entry_at k (find k xs), h)
unfolding list_get
list_get_lem xs k h a = find_entry_lem k xs h a

destroy_nodes_lem :
    (xs : Items) (h : Heap)
    → destroy_nodes (map entry_of xs) h ≡ some (tt, released h (5 * length xs))
unfolding destroy_nodes free
destroy_nodes_lem [] h = ground arith
destroy_nodes_lem (i ∷ xs) h =
    ground (arith, entry_destroy_lem i h, destroy_nodes_lem xs (released (released h 4) 1))

pub list_destroy_lem :
    (xs : Items) (h : Heap)
    → list_destroy (some (list_of xs)) h ≡ some (pos 0, released h (5 * length xs + 1))
unfolding list_destroy free
list_destroy_lem xs h = ground (arith, destroy_nodes_lem xs h)
