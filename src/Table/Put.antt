-- ===== src/Table/Put.antt =====
-- `table_put` of source/table.c updates the abstract table, unless an allocation is refused.
use kv_storage_service.Common.{
  ◌+◌, ◌⊎◌, inl, inr, ◌<◌, ◌≡◌, refl, sym, Option, none, some, ℤ, pos, length, get_or, set, arith,
  minus_one, Option-cases, Bool-cases,
}
use mathlib.Core.Path.{subst}
use kv_storage_service.Machine.{Heap, IsAmple, asked, answer, int_max}
use kv_storage_service.Text.{Str}
use kv_storage_service.Block.{Bytes}
use kv_storage_service.LinkedList.Items.{block_of, entry_of, list_of, insert, find-insert}
use kv_storage_service.LinkedList.Add.{added, added_heap}
use kv_storage_service.Table.{Table, table_put, fill, put_entry}
use kv_storage_service.Table.Hash.{slot, IsPlain, hash_value-plain}
use kv_storage_service.Table.View.{
  owned, lacks, Buckets, table_of, bucket, view, update, total, IsTable, bucket-le-total, total-set,
  set-IsTable, view-set, view-set_same,
}
use kv_storage_service.Table.Outcome.{
  Put, Grew, added-IsAscending, length-added-le, added-All, added-cases, added-ample, put_balance,
}
use kv_storage_service.Table.Steps.{
  fill_lem, put_entry-made, put_entry-make, put_entry-refused, asked_four, grants_four,
  table_put-granted, table_put-refused,
}

module _ (bs : Buckets) (t : IsTable bs) (k : Str) (p : IsPlain k) (v : Bytes)
    (filled : 0 < length v) (room : total bs < int_max) where
  -- A put that reaches the list of its slot.
  fill-Put :
      (h h' : Heap)
      → Grew h h' (4 + lacks (get_or bs (slot (length bs) k) none))
      → Put bs k v h (
          fill
            (table_of bs)
            (pos (slot (length bs) k))
            (some (list_of (bucket bs (slot (length bs) k))))
            (entry_of (k, v))
            h')
  fill-Put h h' grew =
      let i = slot (length bs) k in
      let xs = bucket bs i in
      let ys = added xs k v h' in
      let lt : i < length bs = (hash_value-plain k (length bs) h p t.wide).1 in
      let small = bucket-le-total bs i in
      record {
        result = pos 0;
        after = set bs i (some ys);
        heap = added_heap xs k h';
        runs = fill_lem bs i xs k v h' lt (t.ascending i) (omega arith);
        valid =
            set-IsTable bs i ys t lt (added-IsAscending xs k v h' (t.ascending i))
              (added-All _ xs k v h' (record { homed = refl; plain = p; filled = filled })
                (t.stored i))
              (omega (arith, length-added-le xs k v h' (t.ascending i)));
        grows = omega (arith, total-set bs i ys lt, length-added-le xs k v h' (t.ascending i));
        codes = inl refl;
        reads = elim (added-cases xs k v h') [
          | inl e ↦ inl (λ q. rw e (new q))
          | inr e ↦ inr (λ q. rw e (view-set_same bs i q lt))
        ];
        stores = λ e. (refl, λ q. rw (added-ample xs k v h' (grew e).0) (new q));
        plenty = λ e. ground (arith, (grew e).0);
        balanced = λ e. balance (grew e);
      }
    where
      new :
          (q : Str)
          → view
              (set bs (slot (length bs) k) (some (insert k v (bucket bs (slot (length bs) k)))))
              q
            ≡ update (view bs) k (some v) q
      new q = view-set bs k q (some v) _ t.wide (find-insert k q v (bucket bs (slot (length bs) k)))

      balance :
          (IsAmple h')
            × (h'.allocs ≡ h.allocs + (4 + lacks (get_or bs (slot (length bs) k) none)))
            × (h'.frees ≡ h.frees)
          → (added_heap (bucket bs (slot (length bs) k)) k h').allocs + h.frees + owned bs
            ≡ h.allocs
              + (added_heap (bucket bs (slot (length bs) k)) k h').frees
              + owned (
                  set bs
                    (slot (length bs) k)
                    (some (added (bucket bs (slot (length bs) k)) k v h')))
      balance g =
          put_balance bs (slot (length bs) k) k v h h' (hash_value-plain k (length bs) h p t.wide).1
            (t.ascending _) g

  again :
      (h : Heap) {o o' : Option ((ℤ × Option Table) × Heap)}
      → o ≡ o'
      → Put bs k v h o'
      → Put bs k v h o
  again h e = subst (Put bs k v h) (sym e)

  -- A put that stops before it reaches the table.
  stop-Put :
      (h h' : Heap) {o : Option ((ℤ × Option Table) × Heap)}
      → (IsAmple h → ⊥)
      → o ≡ some ((minus_one, some (table_of bs)), h')
      → Put bs k v h o
  stop-Put h h' short e = record {
    result = minus_one;
    after = bs;
    heap = h';
    runs = e;
    valid = t;
    grows = omega arith;
    codes = inr (refl, refl);
    reads = inr (λ q. refl);
    stores = λ full. absurd (short full);
    plenty = λ full. absurd (short full);
    balanced = λ full. absurd (short full);
  }

  -- The end of `table_put`, from a heap that is ample where the first one is.
  put_entry-Put :
      (h h' : Heap)
      → Grew h h' 4
      → Put bs k v h (put_entry (table_of bs) (pos (slot (length bs) k)) (entry_of (k, v)) h')
  put_entry-Put h h' grew =
      let i = slot (length bs) k in
      let lt : i < length bs = (hash_value-plain k (length bs) h p t.wide).1 in
      elim (Option-cases (get_or bs i none)) [
        | inr (xs, e) ↦
            again h (put_entry-made bs i lt (entry_of (k, v)) h' xs e)
              (fill-Put h h' (λ full. ground (arith, grew full)))
        | inl e ↦ elim (Bool-cases (answer h'.answers)) [
          | inl b ↦
              again h (put_entry-make bs i lt (entry_of (k, v)) h' e b)
                (fill-Put h (asked h') (λ full. ground (arith, grew full)))
          | inr b ↦
              stop-Put h (asked h') (λ full. ground (arith, grew full))
                (put_entry-refused bs i lt (entry_of (k, v)) h' e b)
        ]
      ]

  pub table_put-Put :
      (h : Heap) → Put bs k v h (table_put (some (table_of bs)) (some k) (some (block_of v)) h)
  table_put-Put h = elim (Bool-cases (grants_four h)) [
    | inl g ↦
        again h (table_put-granted bs k p v filled h t.wide g)
          (put_entry-Put h (asked_four h) (λ full. ground arith))
    | inr g ↦
        let (h', e) = table_put-refused bs k p v filled h g in
        stop-Put h h' (λ full. ground arith) e
  ]

  -- On a valid table with room for one more entry, for an ASCII key whose characters add up to an
  -- int and a value that is not empty, whatever malloc answers, `table_put` meets no undefined
  -- behaviour and leaves a valid table; it returns 0, or -1 with the table as it was; and the
  -- table reads as before, or with the new value under the key.
  pub table_put-atomic :
      (h : Heap)
      → (result : ℤ) × (after : Buckets) × (heap : Heap) × (table_put
            (some (table_of bs))
            (some k)
            (some (block_of v))
            h
          ≡ some ((result, some (table_of after)), heap))
        × IsTable after
        × ((result ≡ pos 0) ⊎ ((result ≡ minus_one) × (after ≡ bs)))
        × (((q : Str) → view after q ≡ update (view bs) k (some v) q)
            ⊎ ((q : Str) → view after q ≡ view bs q))
  table_put-atomic h =
      let o = table_put-Put h in (o.result, o.after, o.heap, o.runs, o.valid, o.codes, o.reads)

  -- On a valid table with room for one more entry, for an ASCII key whose characters add up to an
  -- int and a value that is not empty, where nothing is refused, `table_put` returns 0, the key
  -- then has the new value and every other key what it had, and all that was allocated and not
  -- freed belongs to the table.
  pub table_put-update :
      (h : Heap)
      → IsAmple h
      → (after : Buckets) × (heap : Heap) × (table_put
            (some (table_of bs))
            (some k)
            (some (block_of v))
            h
          ≡ some ((pos 0, some (table_of after)), heap))
        × IsTable after
        × ((q : Str) → view after q ≡ update (view bs) k (some v) q)
        × IsAmple heap
        × (heap.allocs + h.frees + owned bs ≡ h.allocs + heap.frees + owned after)
  table_put-update h full =
      let o = table_put-Put h in
      (
        o.after,
        o.heap,
        rw (o.stores full).0 at o.runs,
        o.valid,
        (o.stores full).1,
        o.plenty full,
        o.balanced full,
      )
