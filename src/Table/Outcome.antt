-- ===== src/Table/Outcome.antt =====
-- What `table_put` of source/table.c may leave behind, and what the entry that it adds to a list
-- does to the table's invariant and to the account of its allocations.
use kv_storage_service.Common.{
  ℕ, ◌+◌, suc, ◌⊎◌, ◌<◌, ◌≤◌, ◌≡◌, Option, none, some, ℤ, pos, All, length, get_or, set, arith,
  minus_one,
}
use kv_storage_service.Machine.{Heap, IsAmple}
use kv_storage_service.Text.{Str}
use kv_storage_service.Block.{Bytes}
use kv_storage_service.LinkedList.Items.{
  Items, insert, IsAscending, insert-IsAscending, length-insert,
}
use kv_storage_service.LinkedList.Add.{added, added_heap}
use kv_storage_service.Table.{Table}
use kv_storage_service.Table.View.{
  owned, made-set, total-set, lacks, Buckets, table_of, bucket, view, update, total, IsTable,
  insert-All,
}

-- What a put of v under k may leave behind, with its result and from the heap h.
pub record Put (bs : Buckets) (k : Str) (v : Bytes) (h : Heap)
    (o : Option ((ℤ × Option Table) × Heap)) : Type 0 where
  pub result : ℤ
  pub after : Buckets
  pub heap : Heap
  pub runs : o ≡ some ((result, some (table_of after)), heap)
  pub valid : IsTable after
  pub grows : total after ≤ suc (total bs)
  pub codes : (result ≡ pos 0) ⊎ ((result ≡ minus_one) × (after ≡ bs))
  pub reads :
      ((q : Str) → view after q ≡ update (view bs) k (some v) q)
      ⊎ ((q : Str) → view after q ≡ view bs q)
  pub stores :
      IsAmple h → (result ≡ pos 0) × ((q : Str) → view after q ≡ update (view bs) k (some v) q)
  pub plenty : IsAmple h → IsAmple heap
  -- what was allocated and not freed is what the table has come to hold
  pub balanced : IsAmple h → heap.allocs + h.frees + owned bs ≡ h.allocs + heap.frees + owned after

-- Where h is ample, so is h', which has n allocations more and nothing freed.
abbrev pub Grew : Heap → Heap → ℕ → Type 0
Grew h h' n = IsAmple h → (IsAmple h') × (h'.allocs ≡ h.allocs + n) × (h'.frees ≡ h.frees)

pub added-IsAscending :
    (xs : Items) (k : Str) (v : Bytes) (h : Heap) → IsAscending xs → IsAscending (added xs k v h)
added-IsAscending xs k v h a = ground (arith, insert-IsAscending k v xs a)

pub length-added-le :
    (xs : Items) (k : Str) (v : Bytes) (h : Heap)
    → IsAscending xs
    → length (added xs k v h) ≤ suc (length xs)
length-added-le xs k v h a = ground (arith, length-insert k v xs a)

pub added-All :
    (P : Str × Bytes → Type 0) (xs : Items) (k : Str) (v : Bytes) (h : Heap)
    → P (k, v)
    → All P xs
    → All P (added xs k v h)
added-All P xs k v h p a = ground (arith, insert-All P k v xs p a)

pub added-cases :
    (xs : Items) (k : Str) (v : Bytes) (h : Heap)
    → (added xs k v h ≡ insert k v xs) ⊎ (added xs k v h ≡ xs)
added-cases xs k v h = ground arith

pub added-ample :
    (xs : Items) (k : Str) (v : Bytes) (h : Heap) → IsAmple h → added xs k v h ≡ insert k v xs
added-ample xs k v h e = ground arith

-- The account of an entry added to slot i.
pub put_balance :
    (bs : Buckets) (i : ℕ) (k : Str) (v : Bytes) (h h' : Heap)
    → i < length bs
    → IsAscending (bucket bs i)
    → (IsAmple h') × (h'.allocs ≡ h.allocs + (4 + lacks (get_or bs i none))) × (h'.frees ≡ h.frees)
    → (added_heap (bucket bs i) k h').allocs + h.frees + owned bs
      ≡ h.allocs
        + (added_heap (bucket bs i) k h').frees
        + owned (set bs i (some (added (bucket bs i) k v h')))
put_balance bs i k v h h' lt a g = ground (
  arith,
  total-set bs i (added (bucket bs i) k v h') lt,
  made-set bs i (added (bucket bs i) k v h') lt,
  length-insert k v (bucket bs i) a,
)
