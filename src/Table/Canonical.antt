-- ===== src/Table/Canonical.antt =====
-- What a table of source/table.c holds and the number of its slots fix the entries of each slot,
-- and what `table_get_keys` returns.
use kv_storage_service.Common.{
  if◌then◌else◌, ℕ, suc, ◌==◌, ==_iff, Bool-cases, false, inl, inr, ◌≡◌, ◌≢◌, refl, sym, ap, ◌∙◌,
  some, List, map, ◌<◌, ◌+◌, none, [], ◌∷◌, ◌++◌, length, arith,
}
use kv_storage_service.Text.{Str}
use kv_storage_service.LinkedList.Items.{find}
use kv_storage_service.LinkedList.Canonical.{find-injective}
use kv_storage_service.Table.Hash.{slot}
use kv_storage_service.Table.View.{Buckets, bucket, view, total, table_of, IsTable}
use kv_storage_service.Table.Keys.{elsewhere, table_get_keys_lem}
use kv_storage_service.Machine.{Heap, IsAmple, grown, int_max}
use kv_storage_service.Table.{table_get_keys}
use kv_storage_service.Table.Walk.{all_keys, keys_in, temporaries}

other : {a b : ℕ} → (a == b) ≡ false → a ≢ b
other {a} {b} e same = ground arith

-- A slot holds what the table has under the keys that hash to it.
find-bucket :
    (bs : Buckets) (i : ℕ) (q : Str)
    → IsTable bs
    → find q (bucket bs i) ≡ (if slot (length bs) q == i then view bs q else none)
unfolding view
find-bucket bs i q t = elim (Bool-cases (slot (length bs) q == i)) [
  | inl e ↦ rw e (ap (λ j. find q (bucket bs j)) (sym ((==_iff _ _).0 e)))
  | inr e ↦ rw e (elsewhere q bs t i (λ same. other e (sym same)))
]

bucket_unique :
    (bs cs : Buckets) (i : ℕ)
    → IsTable bs
    → IsTable cs
    → length bs ≡ length cs
    → ((q : Str) → view bs q ≡ view cs q)
    → bucket bs i ≡ bucket cs i
bucket_unique bs cs i t u size same =
    find-injective (bucket bs i) (bucket cs i) (t.ascending i) (u.ascending i)
      (λ q. find-bucket bs i q t ∙ rw (size, same q) (sym (find-bucket cs i q u)))

all_keys-eq :
    (bs cs : Buckets)
    → length bs ≡ length cs
    → ((i : ℕ) → bucket bs i ≡ bucket cs i)
    → all_keys bs ≡ all_keys cs
unfolding all_keys
all_keys-eq [] [] size same = refl
all_keys-eq [] (c ∷ cs) size same = absurd (omega arith)
all_keys-eq (b ∷ bs) [] size same = absurd (omega arith)
all_keys-eq (b ∷ bs) (c ∷ cs) size same =
    λ i. keys_in (same 0 i) ++ all_keys-eq bs cs (omega arith) (λ j. same (suc j)) i

-- On two valid tables with the same number of slots, the same contents and fewer than 2^31 - 1
-- entries each, however each came to them, and with malloc refusing nothing, `table_get_keys`
-- returns the same array: the same keys in the same order, then a NULL.
pub table_get_keys_unique :
    (bs cs : Buckets) (h k : Heap)
    → IsTable bs
    → IsTable cs
    → length bs ≡ length cs
    → ((q : Str) → view bs q ≡ view cs q)
    → total bs < int_max
    → total cs < int_max
    → IsAmple h
    → IsAmple k
    → (ks : List Str) × (h' k' : Heap) × (table_get_keys (some (table_of bs)) h
        ≡ some (some (map some ks ++ none ∷ []), h'))
      × (table_get_keys (some (table_of cs)) k ≡ some (some (map some ks ++ none ∷ []), k'))
table_get_keys_unique bs cs h k t u size same lt lt' full full' = (
  all_keys bs,
  grown h (temporaries bs + total bs + 1) (temporaries bs),
  grown k (temporaries cs + total cs + 1) (temporaries cs),
  table_get_keys_lem bs h full lt,
  table_get_keys_lem cs k full' lt'
      ∙ ap
          (λ ks. some (
            some (map some ks ++ none ∷ []),
            grown k (temporaries cs + total cs + 1) (temporaries cs),
          ))
          (sym (all_keys-eq bs cs size (λ i. bucket_unique bs cs i t u size same))),
)
