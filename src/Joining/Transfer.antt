-- ===== src/Joining/Transfer.antt =====
-- What `set_antecessor` copies into the table of a server that joins the chain.
use kv_storage_service.Common.{◌+◌, ◌<◌, ◌≤◌, ◌≡◌, refl, ◌∙◌, some, [], ◌∷◌, All, length, arith}
use kv_storage_service.Machine.{Heap, IsAmple, int_max, ◌>>=◌}
use kv_storage_service.Text.{Str}
use kv_storage_service.Block.{Bytes}
use kv_storage_service.LinkedList.Items.{Items}
use kv_storage_service.Table.Hash.{IsPlain}
use kv_storage_service.Table.View.{Buckets, Contents, table_of, view, update, total, IsTable}
use kv_storage_service.Table.Put.{table_put-Put}
use kv_storage_service.Table.Listing.{load}
use kv_storage_service.Stub.Entries.{entry_array}
use kv_storage_service.Joining.{copy_entries}

-- An entry that a table can take.
abbrev pub IsTaken : Str × Bytes → Type 0
IsTaken i = IsPlain i.0 × (0 < length i.1)

-- Maps that agree go on to agree.
load_eq :
    (xs : Items) (f g : Contents) (q : Str) → ((r : Str) → f r ≡ g r) → load xs f q ≡ load xs g q
unfolding load
load_eq [] f g q e = e q
load_eq (i ∷ xs) f g q e =
    load_eq xs (update f i.0 (some i.1)) (update g i.0 (some i.1)) q (λ r. ground (arith, e r))

pub copy_entries_lem :
    (xs : Items) (bs : Buckets) (h : Heap)
    → All IsTaken xs
    → IsTable bs
    → total bs + length xs ≤ int_max
    → IsAmple h
    → (after : Buckets) × (h' : Heap) × (copy_entries (some (table_of bs)) (entry_array xs) h
        ≡ some (some (table_of after), h'))
      × IsTable after
      × ((q : Str) → view after q ≡ load xs (view bs) q)
      × (total after ≤ total bs + length xs)
      × IsAmple h'
unfolding copy_entries load
copy_entries_lem [] bs h a t room full = (bs, h, refl, t, λ q. refl, omega arith, full)
copy_entries_lem (i ∷ xs) bs h ((plain, filled), a) t room full =
    let o = table_put-Put bs t i.0 plain i.1 filled (omega arith) h in
    let (after, h', run, valid, reads, small, full') =
      copy_entries_lem xs o.after o.heap a o.valid (omega (arith, o.grows)) (o.plenty full) in
    (
      after,
      h',
      rw (o.runs, ◌>>=◌) run,
      valid,
      λ q.
          reads q ∙ load_eq xs (view o.after) (update (view bs) i.0 (some i.1)) q (o.stores full).1,
      omega (arith, o.grows),
      full',
    )
