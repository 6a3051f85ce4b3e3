-- ===== src/Tests/Tables.antt =====
-- source/table.c at concrete keys.
use kv_storage_service.Common.{
  true, false, zero, suc, All, ◌<◌, ℕ, ◌+◌, ◌≡◌, refl, ◌⊎◌, Option, none, some, [], ◌∷◌, ℤ, pos,
  minus_one, if◌then◌else◌, arith,
}
use kv_storage_service.Machine.{int_max, Heap, IsAmple, grown, released, is_null}
use kv_storage_service.Text.{Str}
use kv_storage_service.Block.{Bytes, Block}
use kv_storage_service.LinkedList.Items.{IsAscending, block_of}
use kv_storage_service.Table.{hash_value, table_put, table_get, table_remove, table_destroy}
use kv_storage_service.Table.Create.{empty_slots}
use kv_storage_service.Table.Hash.{IsPlain, IsSmall, slot, hash_value-plain, table_get-negative}
use kv_storage_service.Table.Lookup.{block_at, table_get-total, table_get-view}
use kv_storage_service.Table.Put.{table_put-atomic, table_put-update}
use kv_storage_service.Table.Remove.{Remove, table_remove-Remove}
use kv_storage_service.Table.View.{
  Buckets, bucket, IsStored, table_of, IsTable, view, update, total, owned,
}
use kv_storage_service.Table.Walk.{table_destroy_lem}

abbrev pub fresh : Heap
fresh = record { answers = []; allocs = 0; frees = 0 }

-- The third call of malloc is refused.
abbrev scarce : Heap
scarce = record { answers = true ∷ true ∷ false ∷ []; allocs = 0; frees = 0 }

-- "ab", and "é" in UTF-8
abbrev pub ab : Str
ab = 97 ∷ 98 ∷ []

abbrev e_acute : Str
e_acute = 195 ∷ 169 ∷ []

abbrev pub value : Bytes
value = 1 ∷ 2 ∷ 3 ∷ []

pub ab-IsPlain : IsPlain ab
ab-IsPlain = record { ascii = omega arith; fits = omega arith }

e_acute-IsSmall : IsSmall e_acute
e_acute-IsSmall = record { bytes = omega arith; low_fits = omega arith; high_fits = omega arith }

-- One slot of two, with one entry.
abbrev pub one_entry : Buckets
one_entry = none ∷ some ((ab, value) ∷ []) ∷ []

one_entry-IsAscending : (i : ℕ) → IsAscending (bucket one_entry i)
one_entry-IsAscending zero = tt
one_entry-IsAscending (suc zero) = (tt, tt)
one_entry-IsAscending (suc (suc i)) = tt

one_entry-IsStored : (i : ℕ) → All (IsStored 2 i) (bucket one_entry i)
one_entry-IsStored zero = tt
one_entry-IsStored (suc zero) =
    (record { homed = refl; plain = ab-IsPlain; filled = omega arith }, tt)
one_entry-IsStored (suc (suc i)) = tt

pub one_entry-IsTable : IsTable one_entry
unfolding total
one_entry-IsTable = record {
  wide = omega arith;
  fits = omega arith;
  ascending = one_entry-IsAscending;
  stored = one_entry-IsStored;
}

pub one_entry-room : total one_entry < int_max
unfolding total
one_entry-room = omega arith

hash_value-plain_example : (hash_value ab (pos 2) fresh ≡ some (pos 1, fresh)) × (slot 2 ab < 2)
hash_value-plain_example = hash_value-plain ab 2 fresh ab-IsPlain (omega arith)

table_get-negative_example : table_get (some (table_of (empty_slots 7))) (some e_acute) fresh ≡ none
table_get-negative_example =
    table_get-negative (table_of (empty_slots 7)) e_acute 7 fresh refl (omega arith) e_acute-IsSmall
      (omega arith) (omega arith)

table_put-update_example :
    (after : Buckets) × (heap : Heap) × (table_put
        (some (table_of one_entry))
        (some ab)
        (some (block_of (9 ∷ [])))
        fresh
      ≡ some ((pos 0, some (table_of after)), heap))
    × IsTable after
    × ((q : Str) → view after q ≡ update (view one_entry) ab (some (9 ∷ [])) q)
    × IsAmple heap
    × (heap.allocs + fresh.frees + owned one_entry ≡ fresh.allocs + heap.frees + owned after)
table_put-update_example =
    table_put-update one_entry one_entry-IsTable ab ab-IsPlain (9 ∷ []) (omega arith) one_entry-room
      fresh refl

table_put-atomic_example :
    (result : ℤ) × (after : Buckets) × (heap : Heap) × (table_put
        (some (table_of one_entry))
        (some ab)
        (some (block_of (9 ∷ [])))
        scarce
      ≡ some ((result, some (table_of after)), heap))
    × IsTable after
    × ((result ≡ pos 0) ⊎ ((result ≡ minus_one) × (after ≡ one_entry)))
    × (((q : Str) → view after q ≡ update (view one_entry) ab (some (9 ∷ [])) q)
        ⊎ ((q : Str) → view after q ≡ view one_entry q))
table_put-atomic_example =
    table_put-atomic one_entry one_entry-IsTable ab ab-IsPlain (9 ∷ []) (omega arith) one_entry-room
      scarce

table_get-view_example :
    table_get (some (table_of one_entry)) (some ab) fresh
    ≡ some
        (block_at (view one_entry ab), grown fresh (if is_null (view one_entry ab) then 0 else 2) 0)
table_get-view_example = table_get-view one_entry one_entry-IsTable ab ab-IsPlain fresh refl

table_get-total_example :
    (o : Option Block) × (h' : Heap) × (table_get (some (table_of one_entry)) (some ab) scarce
      ≡ some (o, h'))
    × ((o ≡ block_at (view one_entry ab)) ⊎ (o ≡ none))
table_get-total_example = table_get-total one_entry one_entry-IsTable ab ab-IsPlain scarce

table_remove-Remove_example :
    Remove one_entry ab fresh (table_remove (some (table_of one_entry)) (some ab) fresh)
table_remove-Remove_example = table_remove-Remove one_entry one_entry-IsTable ab ab-IsPlain fresh

table_destroy_example :
    table_destroy (some (table_of one_entry)) fresh ≡ some (pos 0, released fresh (owned one_entry))
table_destroy_example = table_destroy_lem one_entry fresh
