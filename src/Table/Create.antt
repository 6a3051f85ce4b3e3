-- ===== src/Table/Create.antt =====
-- `table_create` of source/table.c makes an empty table.
use kv_storage_service.Common.{
  ℕ, zero, suc, ◌<◌, ◌≡◌, refl, none, some, ◌∷◌, pos, get_or, map, replicate, arith,
  length-replicate, ap,
}
use kv_storage_service.Machine.{Heap, IsAmple, grown, malloc}
use kv_storage_service.Text.{Str}
use kv_storage_service.Table.{table_create}
use kv_storage_service.Table.View.{Buckets, chain_of, table_of, view, total, IsTable}

abbrev pub empty_slots : ℕ → Buckets
empty_slots n = replicate n none

map-empty_slots : (n : ℕ) → map chain_of (empty_slots n) ≡ replicate n none
map-empty_slots zero = refl
map-empty_slots (suc n) = ap (λ t. none ∷ t) (map-empty_slots n)

bucket-empty_slots : (n i : ℕ) → get_or (empty_slots n) i none ≡ none
bucket-empty_slots zero i = refl
bucket-empty_slots (suc n) zero = refl
bucket-empty_slots (suc n) (suc i) = bucket-empty_slots n i

pub total-empty_slots : (n : ℕ) → total (empty_slots n) ≡ 0
unfolding total
total-empty_slots zero = refl
total-empty_slots (suc n) = omega (arith, total-empty_slots n)

pub empty_slots-IsTable : (n : ℕ) → 0 < n → IsTable (empty_slots n)
empty_slots-IsTable n lt = record {
  wide = rw length-replicate lt;
  fits = rw total-empty_slots (omega arith);
  ascending = λ i. rw bucket-empty_slots tt;
  stored = λ i. rw bucket-empty_slots tt;
}

pub view-empty_slots : (n : ℕ) (q : Str) → view (empty_slots n) q ≡ none
unfolding view
view-empty_slots n q = rw bucket-empty_slots

-- Where nothing is refused, `table_create` with n > 0 makes a valid table with n slots and no key.
pub table_create_lem :
    (n : ℕ) (h : Heap)
    → 0 < n
    → IsAmple h
    → (table_create (pos n) h ≡ some (some (table_of (empty_slots n)), grown h 2 0))
      × IsTable (empty_slots n)
      × ((q : Str) → view (empty_slots n) q ≡ none)
unfolding table_create malloc
table_create_lem zero h lt e = absurd (omega arith)
table_create_lem (suc n) h lt e = (
  rw (map-empty_slots, length-replicate) (ground arith),
  empty_slots-IsTable (suc n) (omega arith),
  view-empty_slots (suc n),
)
