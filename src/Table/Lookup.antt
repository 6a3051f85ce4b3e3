-- ===== src/Table/Lookup.antt =====
-- `table_get` and `table_remove` of source/table.c read and clear the abstract table.
use kv_storage_service.Common.{
  ◌⊎◌, inl, inr, ◌<◌, ◌≤◌, ◌≡◌, ap, ◌&&◌, ◌∙◌, Option, none, some, [], ◌∷◌, pos, All, length,
  get_or, set, if◌then◌else◌, arith, length-set, minus_one, Option-cases, Bool-cases,
}
use mathlib.Core.Path.{subst}
use kv_storage_service.Machine.{
  Heap, IsAmple, asked, answer, released, grown, int_max, is_null, ◌>>=◌,
}
use kv_storage_service.Text.{Str, cmp, is_eq}
use kv_storage_service.Text.Order.{eq_of_cmp}
use kv_storage_service.Block.{Bytes, Block}
use kv_storage_service.LinkedList.Items.{Items, block_of, find, erase, IsAscending}
use kv_storage_service.LinkedList.Loops.{entry_at}
use kv_storage_service.LinkedList.Get.{list_get_lem}
use kv_storage_service.LinkedList.Remove.{list_remove_lem}
use kv_storage_service.Table.{table_get, table_remove, copy_found}
use kv_storage_service.Table.Hash.{slot, IsPlain, hash_value-plain}
use kv_storage_service.Table.View.{
  Buckets, table_of, bucket, items_of, view, IsTable, bucket-le-total,
}
use kv_storage_service.Table.Steps.{block_duplicate_lem, read_slot_lem, write_slot_lem}

pub find-All :
    (P : Str × Bytes → Type 0) (k : Str) (v : Bytes) (xs : Items)
    → All P xs
    → find k xs ≡ some v
    → P (k, v)
find-All P k v [] a e = absurd (ground arith)
find-All P k v (i ∷ xs) a e = elim (Bool-cases (is_eq (cmp i.0 k))) [
  | inr b ↦ find-All P k v xs a.1 (ground arith)
  | inl b ↦ subst P (ground (arith, eq_of_cmp i.0 k)) a.0
]

-- the copy that `table_get` returns
abbrev pub block_at : Option Bytes → Option Block
block_at none = none
block_at (some v) = some (block_of v)

module _ (bs : Buckets) (t : IsTable bs) (k : Str) (p : IsPlain k) where
  pub slot-lt : slot (length bs) k < length bs
  slot-lt =
      (hash_value-plain k (length bs) (record { answers = []; allocs = 0; frees = 0 }) p t.wide).1

  -- Up to the copy, `table_get` is a lookup in the abstract table.
  table_get-copy :
      (h : Heap) → table_get (some (table_of bs)) (some k) h ≡ copy_found (entry_at k (view bs k)) h
  unfolding table_get view copy_found
  table_get-copy h =
      rw ((hash_value-plain k (length bs) h p t.wide).0, ◌>>=◌)
        (rw (read_slot_lem bs (slot (length bs) k) slot-lt h, ◌>>=◌)
          (elim (Option-cases (get_or bs (slot (length bs) k) none)) [
            | inl e ↦ rw e
            | inr (xs, e) ↦
                let a =
                  subst (λ b. IsAscending (items_of b)) e (t.ascending (slot (length bs) k)) in
                rw e (ground (arith, list_get_lem xs k h a))
          ]))

  filled : (v : Bytes) → view bs k ≡ some v → 0 < length v
  unfolding view
  filled v e = (find-All _ k v _ (t.stored (slot (length bs) k)) e).filled

  -- On a valid table, for an ASCII key whose characters add up to an int, whatever malloc answers,
  -- `table_get` meets no undefined behaviour: it returns a copy of what the table has under the
  -- key, or NULL.
  pub table_get-total :
      (h : Heap)
      → (o : Option Block) × (h' : Heap) × (table_get (some (table_of bs)) (some k) h
          ≡ some (o, h'))
        × ((o ≡ block_at (view bs k)) ⊎ (o ≡ none))
  unfolding copy_found
  table_get-total h = elim (Option-cases (view bs k)) [
    | inl e ↦ (none, h, table_get-copy h ∙ rw e, ground arith)
    | inr (v, e) ↦
        let c = block_duplicate_lem v h (filled v e) in
        elim (Bool-cases (answer h.answers && answer (asked h).answers)) [
          | inl g ↦ (
            some (block_of v),
            asked (asked h),
            table_get-copy h ∙ rw e (ground (arith, c)),
            ground arith,
          )
          | inr g ↦ (
            none,
            (if answer h.answers then released (asked (asked h)) 1 else asked h),
            table_get-copy h ∙ rw e (ground (arith, c)),
            ground arith,
          )
        ]
  ]

  -- On a valid table, for an ASCII key whose characters add up to an int, where nothing is
  -- refused, `table_get` returns a copy of exactly what the table has under the key, NULL where it
  -- has nothing, and allocates the copy and nothing else.
  pub table_get-view :
      (h : Heap)
      → IsAmple h
      → table_get (some (table_of bs)) (some k) h
        ≡ some (block_at (view bs k), grown h (if is_null (view bs k) then 0 else 2) 0)
  unfolding copy_found
  table_get-view h full = elim (Option-cases (view bs k)) [
    | inl e ↦ table_get-copy h ∙ rw e (ground arith)
    | inr (v, e) ↦
        table_get-copy h ∙ rw e (ground (arith, full, block_duplicate_lem v h (filled v e)))
  ]

  pub remove-made :
      (xs : Items) (h : Heap)
      → get_or bs (slot (length bs) k) none ≡ some xs
      → table_remove (some (table_of bs)) (some k) h ≡ (
          if is_null (view bs k)
          then some (
            (
              pos 1,
              some (table_of (set bs (slot (length bs) k) (some (bucket bs (slot (length bs) k))))),
            ),
            h,
          )
          else some (
            (
              pos 0,
              some (
                  table_of (
                    set bs (slot (length bs) k) (some (erase k (bucket bs (slot (length bs) k)))))),
            ),
            released h 5,
          ))
  unfolding table_remove view
  remove-made xs h e =
      let i = slot (length bs) k in
      let a = subst (λ b. IsAscending (items_of b)) e (t.ascending i) in
      let fit : length xs ≤ int_max =
        omega (arith, bucket-le-total bs i, ap (λ b. length (items_of b)) e, t.fits) in
      rw ((hash_value-plain k (length bs) h p t.wide).0, ◌>>=◌)
        (rw (read_slot_lem bs i slot-lt h, ◌>>=◌)
          (rw e (
            ground (
              arith,
              list_remove_lem xs k h a fit,
              write_slot_lem bs i slot-lt xs h,
              write_slot_lem bs i slot-lt (erase k xs) (released h 5),
              length-set bs i (some xs),
              length-set bs i (some (erase k xs)),
            ))))

  pub remove-unmade :
      (h : Heap)
      → get_or bs (slot (length bs) k) none ≡ none
      → table_remove (some (table_of bs)) (some k) h ≡ some ((minus_one, some (table_of bs)), h)
  unfolding table_remove
  remove-unmade h e =
      rw ((hash_value-plain k (length bs) h p t.wide).0, ◌>>=◌)
        (rw (read_slot_lem bs (slot (length bs) k) slot-lt h, ◌>>=◌) (rw e))
