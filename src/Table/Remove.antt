-- ===== src/Table/Remove.antt =====
-- `table_remove` of source/table.c clears the key in the abstract table.
use kv_storage_service.Common.{
  ◌≤◌, ◌+◌, inl, inr, ◌<◌, ◌≡◌, refl, ◌∙◌, Option, none, some, ℤ, pos, length, get_or, set,
  if◌then◌else◌, arith, minus_one, Option-cases,
}
use kv_storage_service.Machine.{Heap, released, is_null}
use kv_storage_service.Text.{Str}
use kv_storage_service.Text.Order.{eq_of_cmp}
use kv_storage_service.Block.{Bytes}
use kv_storage_service.LinkedList.Items.{
  Items, find, erase, find-erase, erase-IsAscending, length-erase,
}
use kv_storage_service.Table.{Table, table_remove}
use kv_storage_service.Table.Hash.{slot, IsPlain}
use kv_storage_service.Table.View.{
  total, Buckets, table_of, bucket, view, update, IsTable, erase-All, set-IsTable, view-set,
  view-set_same, owned, made-set, total-set,
}
use kv_storage_service.Table.Lookup.{slot-lt, remove-made, remove-unmade}

-- What a removal of k leaves behind.
pub record Remove (bs : Buckets) (k : Str) (h : Heap) (o : Option ((ℤ × Option Table) × Heap))
    : Type 0 where
  pub result : ℤ
  pub after : Buckets
  pub heap : Heap
  pub runs : o ≡ some ((result, some (table_of after)), heap)
  pub valid : IsTable after
  -- 0 where the key was there, 1 where its slot has a list without it, -1 where it has no list
  pub code : result ≡ (
      if is_null (view bs k)
      then (if is_null (get_or bs (slot (length bs) k) none) then minus_one else pos 1)
      else pos 0)
  pub reads : (q : Str) → view after q ≡ update (view bs) k none q
  pub balanced : heap.allocs + h.frees + owned bs ≡ h.allocs + heap.frees + owned after
  pub shrinks : total after ≤ total bs
  pub calm : heap.answers ≡ h.answers

module _ (bs : Buckets) (t : IsTable bs) (k : Str) (p : IsPlain k) where
  update_absent : view bs k ≡ none → (q : Str) → view bs q ≡ update (view bs) k none q
  update_absent e q = ground (arith, eq_of_cmp k q)

  absent-Remove :
      (h : Heap) (xs : Items)
      → get_or bs (slot (length bs) k) none ≡ some xs
      → view bs k ≡ none
      → Remove bs k h (table_remove (some (table_of bs)) (some k) h)
  absent-Remove h xs e n =
      let i = slot (length bs) k in
      let lt : i < length bs = slot-lt bs t k p in
      record {
        result = pos 1;
        after = set bs i (some (bucket bs i));
        heap = h;
        runs = remove-made bs t k p xs h e ∙ rw n;
        valid =
            set-IsTable bs i (bucket bs i) t lt (t.ascending i) (t.stored i)
              (omega (arith, t.fits));
        code = rw (n, e);
        reads = λ q. view-set_same bs i q lt ∙ update_absent n q;
        balanced = ground (arith, total-set bs i (bucket bs i) lt, made-set bs i (bucket bs i) lt);
        shrinks = omega (arith, total-set bs i (bucket bs i) lt);
        calm = refl;
      }

  present-Remove :
      (h : Heap) (xs : Items) (v : Bytes)
      → get_or bs (slot (length bs) k) none ≡ some xs
      → view bs k ≡ some v
      → Remove bs k h (table_remove (some (table_of bs)) (some k) h)
  present-Remove h xs v e f =
      let i = slot (length bs) k in
      let lt : i < length bs = slot-lt bs t k p in
      let ys = erase k (bucket bs i) in
      let shorter = length-erase k (bucket bs i) (t.ascending i) in
      let there : find k (bucket bs i) ≡ some v = unfold view in f in
      record {
        result = pos 0;
        after = set bs i (some ys);
        heap = released h 5;
        runs = remove-made bs t k p xs h e ∙ rw f;
        valid =
            set-IsTable bs i ys t lt (erase-IsAscending k _ (t.ascending i))
              (erase-All _ k _ (t.stored i)) (ground (arith, t.fits));
        code = rw f;
        reads = λ q. view-set bs k q none ys t.wide (find-erase k q _ (t.ascending i));
        balanced = ground (arith, total-set bs i ys lt, made-set bs i ys lt);
        shrinks = ground (arith, total-set bs i ys lt);
        calm = refl;
      }

  absent : get_or bs (slot (length bs) k) none ≡ none → view bs k ≡ none
  unfolding view
  absent e = rw e

  -- On a valid table, for an ASCII key whose characters add up to an int, `table_remove` never
  -- meets undefined behaviour and calls no malloc: the key, and only the key, is gone from the
  -- table, which stays valid; the result is 0 where the key was there, 1 where its slot has a list
  -- without it, and -1 where its slot has no list; and exactly the allocations of the removed
  -- entry are given back.
  pub table_remove-Remove :
      (h : Heap) → Remove bs k h (table_remove (some (table_of bs)) (some k) h)
  table_remove-Remove h = elim (Option-cases (get_or bs (slot (length bs) k) none)) [
    | inl e ↦ record {
      result = minus_one;
      after = bs;
      heap = h;
      runs = remove-unmade bs t k p h e;
      valid = t;
      code = rw (absent e, e);
      reads = update_absent (absent e);
      balanced = refl;
      shrinks = omega arith;
      calm = refl;
    }
    | inr (xs, e) ↦ elim (Option-cases (view bs k)) [
      | inl n ↦ absent-Remove h xs e n
      | inr (v, f) ↦ present-Remove h xs v e f
    ]
  ]
