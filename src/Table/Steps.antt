-- ===== src/Table/Steps.antt =====
-- The steps of the operations of source/table.c: a slot read and written, a block copied, an entry
-- added to a slot's list.
use kv_storage_service.Common.{
  Bool, ◌&&◌, Bool-cases, inl, inr, true, false, minus_one, ℕ, ◌<◌, ◌≡◌, none, some, pos, length,
  get_or, set, if◌then◌else◌, arith, length-set, length-map, map-set, get_elem?-map, lt→ltb,
  take-length, le→leb,
}
use kv_storage_service.Machine.{Heap, asked, answer, released, malloc, free, int_max, ◌>>=◌}
use kv_storage_service.Text.{Str}
use kv_storage_service.Block.{Bytes, block_duplicate}
use kv_storage_service.Entry.{Entry, entry_create}
use kv_storage_service.LinkedList.{list_create}
use kv_storage_service.LinkedList.Items.{Items, block_of, entry_of, list_of, IsAscending}
use kv_storage_service.LinkedList.Add.{added, added_heap, list_add_lem}
use kv_storage_service.Table.{put_entry, table_put, fill, read_slot, write_slot}
use kv_storage_service.Table.Hash.{slot, IsPlain, hash_value-plain}
use kv_storage_service.Table.View.{Buckets, chain_of, table_of, bucket}

-- The copy of a block that is not empty, by malloc's answers.
pub block_duplicate_lem :
    (v : Bytes) (h : Heap)
    → 0 < length v
    → block_duplicate (some (block_of v)) h ≡ (
        if answer h.answers
        then (if answer (asked h).answers
            then some (some (block_of v), asked (asked h))
            else some (none, released (asked (asked h)) 1))
        else some (none, asked h))
unfolding block_duplicate malloc free
block_duplicate_lem v h lt = ground (arith, take-length v, le→leb (length v) (length v))

module _ (bs : Buckets) (i : ℕ) (lt : i < length bs) where
  pub read_slot_lem :
      (h : Heap) → read_slot (table_of bs).lists (pos i) h ≡ some (chain_of (get_or bs i none), h)
  unfolding read_slot
  read_slot_lem h = rw (get_elem?-map chain_of bs i none lt)

  pub write_slot_lem :
      (xs : Items) (h : Heap)
      → write_slot (table_of bs).lists (pos i) (some (list_of xs)) h
        ≡ some ((table_of (set bs i (some xs))).lists, h)
  unfolding write_slot
  write_slot_lem xs h = rw (length-map, lt→ltb i (length bs) lt, map-set chain_of bs i (some xs))

pub fill_lem :
    (bs : Buckets) (i : ℕ) (xs : Items) (k : Str) (v : Bytes) (h : Heap)
    → i < length bs
    → IsAscending xs
    → length xs < int_max
    → fill (table_of bs) (pos i) (some (list_of xs)) (entry_of (k, v)) h
      ≡ some ((pos 0, some (table_of (set bs i (some (added xs k v h))))), added_heap xs k h)
unfolding fill
fill_lem bs i xs k v h lt a room =
    rw (list_add_lem xs k v h a room, ◌>>=◌)
      (rw (write_slot_lem bs i lt (added xs k v h) (added_heap xs k h), ◌>>=◌, length-set))

-- The slot of the entry, by what stands there and by malloc's answer where a list has to be made.
module _ (bs : Buckets) (i : ℕ) (lt : i < length bs) (entrada : Entry) (h : Heap) where
  pub put_entry-made :
      (xs : Items)
      → get_or bs i none ≡ some xs
      → put_entry (table_of bs) (pos i) entrada h
        ≡ fill (table_of bs) (pos i) (some (list_of (bucket bs i))) entrada h
  unfolding put_entry
  put_entry-made xs e = rw (read_slot_lem bs i lt h, ◌>>=◌, e)

  pub put_entry-make :
      get_or bs i none ≡ none
      → answer h.answers ≡ true
      → put_entry (table_of bs) (pos i) entrada h
        ≡ fill (table_of bs) (pos i) (some (list_of (bucket bs i))) entrada (asked h)
  unfolding put_entry list_create malloc
  put_entry-make e b = rw (read_slot_lem bs i lt h, ◌>>=◌, e, b)

  pub put_entry-refused :
      get_or bs i none ≡ none
      → answer h.answers ≡ false
      → put_entry (table_of bs) (pos i) entrada h ≡ some ((minus_one, some (table_of bs)), asked h)
  unfolding put_entry list_create malloc
  put_entry-refused e b = rw (read_slot_lem bs i lt h, ◌>>=◌, e, b)

-- The four allocations of `table_put`: the key, the block, its data and the entry.
abbrev pub asked_four : Heap → Heap
asked_four h = asked (asked (asked (asked h)))

abbrev pub grants_four : Heap → Bool
grants_four h =
    answer h.answers
    && answer (asked h).answers
    && answer (asked (asked h)).answers
    && answer (asked (asked (asked h))).answers

module _ (bs : Buckets) (k : Str) (p : IsPlain k) (v : Bytes) (lt : 0 < length v) (h : Heap) where
  pub table_put-granted :
      0 < length bs
      → grants_four h ≡ true
      → table_put (some (table_of bs)) (some k) (some (block_of v)) h
        ≡ put_entry (table_of bs) (pos (slot (length bs) k)) (entry_of (k, v)) (asked_four h)
  unfolding table_put malloc entry_create
  table_put-granted wide g = ground (
    arith,
    block_duplicate_lem v (asked h) lt,
    (hash_value-plain k (length bs) (asked_four h) p wide).0,
  )

  pub table_put-refused :
      grants_four h ≡ false
      → (h' : Heap) × (table_put (some (table_of bs)) (some k) (some (block_of v)) h
          ≡ some ((minus_one, some (table_of bs)), h'))
  unfolding table_put malloc entry_create
  table_put-refused g = elim (Bool-cases (answer h.answers)) [
    | inr a ↦ (asked h, ground arith)
    | inl a ↦ elim (Bool-cases (answer (asked h).answers)) [
      | inr b ↦ (asked (asked h), ground (arith, block_duplicate_lem v (asked h) lt))
      | inl b ↦ elim (Bool-cases (answer (asked (asked h)).answers)) [
        | inr c ↦ (
          released (asked (asked (asked h))) 1,
          ground (arith, block_duplicate_lem v (asked h) lt),
        )
        | inl c ↦ (asked_four h, ground (arith, block_duplicate_lem v (asked h) lt))
      ]
    ]
  ]
