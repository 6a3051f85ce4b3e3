-- ===== src/Tests/Members.antt =====
-- The choice of neighbours in a chain of three nodes.
use kv_storage_service.Common.{◌≡◌, refl, ◌↔◌, inl, inr, none, some, List, [], ◌∷◌}
use kv_storage_service.Text.{Str, cmp}
use kv_storage_service.Members.{
  find_successor, closer_after, find_antecessor, closer_before, choose_ends, find_ends,
}
use kv_storage_service.Members.Choice.{IsIn}
use kv_storage_service.Members.Neighbours.{successor_iff}
use kv_storage_service.Members.Ends.{choose_ends_lem}

-- "node0000000001" and so on, by their last digit
abbrev pub node1 : Str
node1 = 49 ∷ []

abbrev pub node2 : Str
node2 = 50 ∷ []

abbrev pub node3 : Str
node3 = 51 ∷ []

abbrev pub nodes : List Str
nodes = node2 ∷ node3 ∷ node1 ∷ []

pub find_successor_run : find_successor node1 nodes none ≡ some node2
unfolding find_successor closer_after cmp
find_successor_run = refl

find_antecessor_run : find_antecessor node1 nodes none ≡ none
unfolding find_antecessor closer_before cmp
find_antecessor_run = refl

pub antecessor_run : find_antecessor node2 nodes none ≡ some node1
unfolding find_antecessor closer_before cmp
antecessor_run = refl

choose_ends_run : choose_ends nodes ≡ some (node3, node1)
unfolding choose_ends find_ends cmp
choose_ends_run = refl

successor_iff_example :
    (find_successor node1 nodes none ≡ some node2) ↔ (find_antecessor node2 nodes none ≡ some node1)
successor_iff_example = successor_iff nodes node1 node2 (inr (inr (inl refl))) (inl refl)

choose_ends_example :
    (greatest : Str) × (least : Str) × (choose_ends nodes ≡ some (greatest, least))
    × IsIn greatest nodes
    × IsIn least nodes
    × (find_successor greatest nodes none ≡ none)
    × (find_antecessor least nodes none ≡ none)
choose_ends_example = choose_ends_lem node2 (node3 ∷ node1 ∷ [])
