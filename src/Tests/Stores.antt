-- ===== src/Tests/Stores.antt =====
-- What `table_get_keys` returns for tables that hold the same map.
use kv_storage_service.Common.{
  ℕ, zero, suc, ◌≡◌, refl, ap, All, some, none, List, map, ◌++◌, ◌+◌, ◌<◌, [], ◌∷◌, arith,
}
use kv_storage_service.Text.{Str}
use kv_storage_service.LinkedList.Items.{IsAscending, find}
use kv_storage_service.Machine.{Heap, grown, int_max}
use kv_storage_service.Table.View.{Buckets, bucket, table_of, view, total, IsStored, IsTable}
use kv_storage_service.Table.Hash.{slot}
use kv_storage_service.Table.{table_get_keys}
use kv_storage_service.Table.Keys.{occurs, found, table_get_keys_once}
use kv_storage_service.Table.Canonical.{table_get_keys_unique}
use kv_storage_service.Tests.Tables.{fresh, ab, value, one_entry, one_entry-IsTable, one_entry-room}

-- The table with one entry, where the other slot has a list that has lost its entries.
abbrev emptied : Buckets
emptied = some [] ∷ some ((ab, value) ∷ []) ∷ []

same_bucket : (i : ℕ) → bucket one_entry i ≡ bucket emptied i
same_bucket zero = refl
same_bucket (suc i) = refl

emptied-IsAscending : (i : ℕ) → IsAscending (bucket emptied i)
emptied-IsAscending zero = tt
emptied-IsAscending (suc i) = one_entry-IsTable.ascending (suc i)

emptied-IsStored : (i : ℕ) → All (IsStored 2 i) (bucket emptied i)
emptied-IsStored zero = tt
emptied-IsStored (suc i) = one_entry-IsTable.stored (suc i)

emptied-IsTable : IsTable emptied
unfolding total
emptied-IsTable = record {
  wide = omega arith;
  fits = omega arith;
  ascending = emptied-IsAscending;
  stored = emptied-IsStored;
}

emptied-room : total emptied < int_max
unfolding total
emptied-room = omega arith

same_view : (q : Str) → view one_entry q ≡ view emptied q
unfolding view
same_view q = ap (find q) (same_bucket (slot 2 q))

table_get_keys_unique_example :
    (ks : List Str) × (h' k' : Heap) × (table_get_keys (some (table_of one_entry)) fresh
      ≡ some (some (map some ks ++ none ∷ []), h'))
    × (table_get_keys (some (table_of emptied)) fresh ≡ some (some (map some ks ++ none ∷ []), k'))
table_get_keys_unique_example =
    table_get_keys_unique one_entry emptied fresh fresh one_entry-IsTable emptied-IsTable refl
      same_view one_entry-room emptied-room refl refl

table_get_keys_once_example :
    (ks : List Str) × (m : ℕ) × (table_get_keys (some (table_of one_entry)) fresh
      ≡ some (some (map some ks ++ none ∷ []), grown fresh (m + total one_entry + 1) m))
    × ((k : Str) → occurs k ks ≡ found (view one_entry k))
table_get_keys_once_example =
    table_get_keys_once one_entry fresh one_entry-IsTable refl one_entry-room
