-- ===== src/Members.antt =====
-- How source/server_hashtable.c and source/client_hashtable.c read the list of the chain's nodes
-- that ZooKeeper gives: the loops that choose the neighbours of a server, and the head and the tail
-- for a client. A node is its name, which zoo_create makes unique and greater than those before it.
pub mod Choice
pub mod Neighbours
pub mod Ends
use kv_storage_service.Common.{Option, none, some, List, [], ◌∷◌, is_pos, is_neg, if◌then◌else◌}
use kv_storage_service.Text.{Str, strcmp}

-- one turn of the loop of `set_next_server`
unfoldable pub closer_after : Str → Str → Option Str → Option Str
closer_after node_id child none = if is_pos (strcmp child node_id) then some child else none
closer_after node_id child (some s) =
    if is_pos (strcmp child node_id)
    then (if is_neg (strcmp child s) then some child else some s)
    else some s

-- the loop, from the start value of `novo_sucessor`
unfoldable pub find_successor : Str → List Str → Option Str → Option Str
find_successor node_id [] best = best
find_successor node_id (child ∷ rest) best =
    find_successor node_id rest (closer_after node_id child best)

-- one turn of the loop of `set_antecessor`
unfoldable pub closer_before : Str → Str → Option Str → Option Str
closer_before node_id child none = if is_neg (strcmp child node_id) then some child else none
closer_before node_id child (some s) =
    if is_neg (strcmp child node_id)
    then (if is_pos (strcmp child s) then some child else some s)
    else some s

unfoldable pub find_antecessor : Str → List Str → Option Str → Option Str
find_antecessor node_id [] best = best
find_antecessor node_id (child ∷ rest) best =
    find_antecessor node_id rest (closer_before node_id child best)

-- The loop of `set_head_tail`, from the values of `max` and `min` before it.
unfoldable pub find_ends : List Str → Str → Str → Str × Str
find_ends [] greatest least = (greatest, least)
find_ends (child ∷ rest) greatest least =
    find_ends rest (if is_pos (strcmp child greatest) then child else greatest)
      (if is_neg (strcmp child least) then child else least)

-- the `max` and `min` of `set_head_tail`; `none` where it reads the first node of an empty list
unfoldable pub choose_ends : List Str → Option (Str × Str)
choose_ends [] = none
choose_ends (first ∷ rest) = some (find_ends rest first first)
