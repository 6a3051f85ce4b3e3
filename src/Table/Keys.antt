-- ===== src/Table/Keys.antt =====
-- `table_get_keys` of source/table.c lists every key of the table exactly once.
use kv_storage_service.Common.{
  ℕ, zero, suc, ◌+◌, ◌<◌, ◌≡◌, ◌≢◌, refl, sym, Option, none, some, List, [], ◌∷◌, ◌++◌, length, map,
  arith, Option-cases, inl, inr,
}
use kv_storage_service.Machine.{Heap, IsAmple, grown, malloc, int_max, to_nat, ◌>>=◌}
use kv_storage_service.Text.{Str, cmp, is_eq}
use kv_storage_service.Text.Order.{eq_of_cmp}
use kv_storage_service.LinkedList.Items.{Items, find, IsAscending, find-IsBelow}
use kv_storage_service.Table.{table_get_keys}
use kv_storage_service.Table.Hash.{slot}
use kv_storage_service.Table.View.{Buckets, table_of, bucket, items_of, view, total, IsTable}
use kv_storage_service.Table.Lookup.{find-All}
use kv_storage_service.Table.Walk.{
  keys_in, all_keys, temporaries, collect_lem, table_size_lem, add_sizes,
}

-- how often a key stands in an array of keys
abbrev pub occurs : Str → List Str → ℕ
occurs k [] = 0
occurs k (j ∷ ks) = to_nat (is_eq (cmp j k)) + occurs k ks

occurs-append : (k : Str) (xs ys : List Str) → occurs k (xs ++ ys) ≡ occurs k xs + occurs k ys
occurs-append k [] ys = omega arith
occurs-append k (j ∷ xs) ys = omega (arith, occurs-append k xs ys)

-- 1 where there is a value, 0 where there is none
abbrev pub found {ℓ} : {A : Type ℓ} → Option A → ℕ
found none = 0
found (some v) = 1

occurs-keys_in : (k : Str) (xs : Items) → IsAscending xs → occurs k (keys_in xs) ≡ found (find k xs)
occurs-keys_in k [] a = refl
occurs-keys_in k (i ∷ xs) a =
    ground (arith, occurs-keys_in k xs, eq_of_cmp i.0 k, find-IsBelow i.0 xs)

module _ (k : Str) where
  occurs_nowhere :
      (bs : Buckets)
      → ((i : ℕ) → IsAscending (bucket bs i))
      → ((i : ℕ) → find k (bucket bs i) ≡ none)
      → occurs k (all_keys bs) ≡ 0
  unfolding all_keys
  occurs_nowhere [] a n = refl
  occurs_nowhere (b ∷ bs) a n = rw (
    occurs-append,
    occurs-keys_in k (items_of b) (a 0),
    n 0,
    occurs_nowhere bs (λ i. a (suc i)) (λ i. n (suc i)),
  )

  occurs_only :
      (bs : Buckets) (j : ℕ)
      → ((i : ℕ) → IsAscending (bucket bs i))
      → ((i : ℕ) → i ≢ j → find k (bucket bs i) ≡ none)
      → occurs k (all_keys bs) ≡ found (find k (bucket bs j))
  unfolding all_keys
  occurs_only [] j a n = refl
  occurs_only (b ∷ bs) zero a n =
      rw
        (
          occurs-append,
          occurs-keys_in k (items_of b) (a 0),
          occurs_nowhere bs (λ i. a (suc i)) (λ i. n (suc i) (omega arith)),
        )
        (omega arith)
  occurs_only (b ∷ bs) (suc j) a n =
      rw
        (
          occurs-append,
          occurs-keys_in k (items_of b) (a 0),
          n 0 (omega arith),
          occurs_only bs j (λ i. a (suc i)) (λ i e. n (suc i) (omega arith)),
        )
        (omega arith)

  pub elsewhere :
      (bs : Buckets) (t : IsTable bs) (i : ℕ) → i ≢ slot (length bs) k → find k (bucket bs i) ≡ none
  elsewhere bs t i e = elim (Option-cases (find k (bucket bs i))) [
    | inl n ↦ n
    | inr (v, f) ↦ absurd (e (sym (find-All _ k v _ (t.stored i) f).homed))
  ]

  -- On a valid table, a key stands in the listing once if it is in the table, and not at all if it
  -- is not.
  pub occurs-all_keys : (bs : Buckets) → IsTable bs → occurs k (all_keys bs) ≡ found (view bs k)
  unfolding view
  occurs-all_keys bs t = occurs_only bs (slot (length bs) k) t.ascending (elsewhere bs t)

-- With nothing refused and fewer than 2^31 - 1 keys, `table_get_keys` returns the listing with a
-- NULL behind it, and keeps one allocation for each key and one for the array.
pub table_get_keys_lem :
    (bs : Buckets) (h : Heap)
    → IsAmple h
    → total bs < int_max
    → table_get_keys (some (table_of bs)) h
      ≡ some (
        some (map some (all_keys bs) ++ none ∷ []),
        grown h (temporaries bs + total bs + 1) (temporaries bs),
      )
unfolding table_get_keys malloc
table_get_keys_lem bs h e lt =
    rw (table_size_lem bs h (omega arith), ◌>>=◌)
      (rw (add_sizes (total bs) 1 h (omega arith), ◌>>=◌)
        (ground
          (arith, e, collect_lem bs (total bs + 1) (grown h 1 0) e (omega arith) (omega arith))))

-- On a valid table with fewer than 2^31 - 1 keys and with nothing refused, `table_get_keys` returns
-- an array with a NULL at its end and none before, in which every key of the table stands exactly
-- once and no other key stands. It keeps one allocation for each key and one for the array.
pub table_get_keys_once :
    (bs : Buckets) (h : Heap)
    → IsTable bs
    → IsAmple h
    → total bs < int_max
    → (ks : List Str) × (m : ℕ) × (table_get_keys (some (table_of bs)) h
        ≡ some (some (map some ks ++ none ∷ []), grown h (m + total bs + 1) m))
      × ((k : Str) → occurs k ks ≡ found (view bs k))
table_get_keys_once bs h t full lt =
    (all_keys bs, temporaries bs, table_get_keys_lem bs h full lt, λ k. occurs-all_keys k bs t)
