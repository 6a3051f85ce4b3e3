-- ===== src/Shell/Table.antt =====
-- The `gettable` of source/client_hashtable.c, where a chain of servers is at the other end.
use kv_storage_service.Common.{
  ℕ, suc, ◌*◌, ◌<◌, ◌≡◌, refl, sym, ap, ◌∙◌, some, List, [], ◌∷◌, ◌++◌, All, length, take-length,
  arith,
}
use mathlib.Core.Path.{subst}
use kv_storage_service.Machine.{Heap, IsAmple, grown, released, free, int_max}
use kv_storage_service.Text.{Str}
use kv_storage_service.Block.{Bytes}
use kv_storage_service.LinkedList.Items.{Items, find, IsBelow, IsAscending}
use kv_storage_service.LinkedList.Canonical.{find-head}
use kv_storage_service.Table.View.{Buckets, Contents, bucket, view, total, IsStored, IsTable}
use kv_storage_service.Table.Walk.{keys_in}
use kv_storage_service.Table.Keys.{occurs, found, occurs-all_keys}
use kv_storage_service.Table.Listing.{
  all_items, length-all_items, all_items-All, find-all_items, keys_in-all_items,
}
use kv_storage_service.Message.{MessageT, op_gettable}
use kv_storage_service.Stub.{
  plain_message, rtable_get_table, rtable_free_entries, exchange, accepted,
}
use kv_storage_service.Stub.Entries.{IsSized, entry_array, read_entries_lem}
use kv_storage_service.Skeleton.{Outside}
use kv_storage_service.Invoke.Shared.{Budget, counting, spent}
use kv_storage_service.Invoke.Listing.{table_reply, invoke_gettable_lem}
use kv_storage_service.Chain.{Chain, Fits, serve, serve_last, Ready}
use kv_storage_service.Chain.Last.{serve_last-reads}
use kv_storage_service.Joining.Replica.{destroy_each_lem}
use kv_storage_service.Printing.{
  Output, newline, entry_key, bytes, print_table, entry_lines, write_block,
}
use kv_storage_service.Shell.{table_command}
use kv_storage_service.Shell.Commands.{Sized, joined}
use kv_storage_service.Shell.Listing.{IsListing}

-- What is printed for some entries: the key and the value of each.
abbrev pub table_lines : Items → List Output
table_lines [] = []
table_lines (i ∷ xs) = entry_key i.0 ∷ bytes i.1 ∷ newline ∷ table_lines xs

entry_lines_lem :
    (xs : Items) (h : Heap) → entry_lines (entry_array xs) h ≡ some (table_lines xs, h)
unfolding entry_lines write_block
entry_lines_lem [] h = refl
entry_lines_lem (i ∷ xs) h = ground (arith, entry_lines_lem xs h, take-length i.1)

still_found :
    (i : Str × Bytes) (xs ys : Items)
    → IsBelow i.0 ys
    → All (λ j. find j.0 xs ≡ some j.1) ys
    → All (λ j. find j.0 (i ∷ xs) ≡ some j.1) ys
still_found i xs [] a b = tt
still_found i xs (j ∷ ys) (lt, a) (e, b) = (ground (arith, lt, e), still_found i xs ys a b)

-- Each entry of an ascending list is the one that is found under its key.
each_found : (xs : Items) → IsAscending xs → All (λ i. find i.0 xs ≡ some i.1) xs
each_found [] a = tt
each_found (i ∷ xs) (below, a) = (find-head i xs, still_found i xs xs below (each_found xs a))

-- The values of a table are those of the map that it stands for.
module _ (bs : Buckets) (f : Contents) (t : IsTable bs) (same : (q : Str) → view bs q ≡ f q)
    (sized : Sized f) where
  bucket-IsSized :
      (i : ℕ) (xs : Items)
      → All (IsStored (length bs) i) xs
      → All (λ j. find j.0 (bucket bs i) ≡ some j.1) xs
      → All IsSized xs
  unfolding view
  bucket-IsSized i [] a b = tt
  bucket-IsSized i (j ∷ xs) (stored, a) (e, b) = (
    sized j.0 j.1 (sym (same j.0) ∙ ap (λ n. find j.0 (bucket bs n)) stored.homed ∙ e),
    bucket-IsSized i xs a b,
  )

  all_items-IsSized : All IsSized (all_items bs)
  all_items-IsSized =
      all_items-All IsSized bs (λ i.
        bucket-IsSized i (bucket bs i) (t.stored i) (each_found (bucket bs i) (t.ascending i)))

abbrev About : Contents → MessageT → Type 0
About f reply =
    (bs : Buckets) × IsTable bs
    × ((q : Str) → view bs q ≡ f q)
    × (total bs < int_max)
    × (reply ≡ table_reply bs)

module _ (clock : Outside) (m n : ℕ) (f : Contents) (c : Chain n) (h : Heap)
    (ready : Ready (suc m) n f clock c) (sized : Sized f) (full : IsAmple h) where
  -- Where malloc refuses nothing and all servers of a chain have valid tables with the same contents,
  -- whose values have 1 to 2^31 - 1 bytes, room for m + 1 more entries, statistics with room for as
  -- many operations and no one inside their locks, and where the request and a reply with all entries
  -- of these contents have less than 64 KiB: the `gettable` of a client that is connected to both ends of the chain prints
  -- each key of these contents once, with its value, and no other key.
  pub table_command_lem :
      Fits clock (plain_message op_gettable)
      → ((bs : Buckets) → IsTable bs → ((q : Str) → view bs q ≡ f q) → Fits clock (table_reply bs))
      → (xs : Items) × (c' : Chain n) × (h' : Heap) × (table_command
            (serve n clock)
            (serve_last n clock)
            (joined c)
            h
          ≡ some ((table_lines xs ++ newline ∷ [], joined c'), h'))
        × IsListing f (keys_in xs)
        × ((q : Str) → find q xs ≡ f q)
        × Ready m n f clock c'
        × IsAmple h'
  unfolding table_command rtable_get_table exchange accepted plain_message print_table
      rtable_free_entries free
  table_command_lem asks answers =
      let (reply, c', h', run, (bs, t, same, small, is_reply), after, full') =
        serve_last-reads clock (plain_message op_gettable) m f (About f) asks n c h
          (λ n s bs h e t same room budget full.
            let (s', h', run, kept, lock, next, stats, full') =
              invoke_gettable_lem (serve n clock) clock s bs h e (omega (arith, room)) full
                (counting budget) in
            (
              table_reply bs,
              s',
              h',
              run,
              (bs, t, same, omega (arith, room), refl),
              answers bs t same,
              kept,
              next,
              lock,
              subst (Budget clock m) (sym stats) (spent budget),
              full',
            ))
          ready full in
      let xs = all_items bs in
      let count : length xs ≡ total bs = length-all_items bs in
      let h₁ = grown (grown h' 1 0) (6 * length xs) (2 * length xs) in
      (
        xs,
        c',
        released (released h₁ (4 * length xs)) 1,
        ground (
          arith,
          run,
          is_reply,
          read_entries_lem xs (table_reply bs) h' refl (sym count) (omega (arith, count, small))
              full' (all_items-IsSized bs f t same sized),
          entry_lines_lem xs h₁,
          destroy_each_lem xs h₁,
        ),
        λ q. ap (occurs q) (keys_in-all_items bs) ∙ occurs-all_keys q bs t ∙ ap found (same q),
        λ q. find-all_items bs q t ∙ same q,
        after,
        full',
      )
