-- ===== src/Stub/Entries.antt =====
-- `rtable_get_table` of source/client_stub.c makes entries of the table out of the reply.
use kv_storage_service.Common.{
  ◌*◌, ◌<◌, ◌≤◌, ◌≡◌, Option, none, some, List, [], ◌∷◌, ◌++◌, map, All, length, take-length,
  narrow_lem, arith,
}
use kv_storage_service.Machine.{Heap, IsAmple, grown, malloc, free, int_max, ◌>>=◌}
use kv_storage_service.Text.{Str}
use kv_storage_service.Block.{Bytes, block_duplicate}
use kv_storage_service.Entry.{Entry, entry_create, entry_duplicate}
use kv_storage_service.LinkedList.Items.{Items, entry_of}
use kv_storage_service.Message.{MessageT}
use kv_storage_service.Invoke.Shared.{block_create_lem}
use kv_storage_service.Invoke.Listing.{listed}
use kv_storage_service.Stub.{receive_entry, receive_entries, read_entries, deref_array}

-- A value that a block can hold.
abbrev pub IsSized : Str × Bytes → Type 0
IsSized i = (0 < length i.1) × (length i.1 ≤ int_max)

-- the array of the entries, with the NULL at its end
abbrev pub entry_array : Items → List (Option Entry)
entry_array xs = map (λ i. some (entry_of i)) xs ++ none ∷ []

receive_entry_lem :
    (i : Str × Bytes) (h : Heap)
    → IsAmple h
    → IsSized i
    → receive_entry (listed i) h ≡ some (some (entry_of i), grown h 6 2)
unfolding receive_entry entry_create entry_duplicate block_duplicate malloc free
receive_entry_lem i h full (lt, le) =
    rw (block_create_lem i.1 h full lt le, ◌>>=◌) (ground (arith, full, take-length i.1))

receive_entries_lem :
    (xs : Items) (h : Heap)
    → IsAmple h
    → All IsSized xs
    → receive_entries (length xs) (map listed xs ++ none ∷ []) h
      ≡ some (entry_array xs, grown h (6 * length xs) (2 * length xs))
unfolding receive_entries
receive_entries_lem [] h full a = ground arith
receive_entries_lem (i ∷ xs) h full (p, a) =
    ground (arith, receive_entry_lem i h full p, receive_entries_lem xs (grown h 6 2) full a)

pub read_entries_lem :
    (xs : Items) (reply : MessageT) (h : Heap)
    → reply.entries ≡ some (map listed xs ++ none ∷ [])
    → reply.n_entries ≡ length xs
    → length xs ≤ int_max
    → IsAmple h
    → All IsSized xs
    → read_entries (some reply) h
      ≡ some (some (entry_array xs), grown (grown h 1 0) (6 * length xs) (2 * length xs))
unfolding read_entries malloc deref_array
read_entries_lem xs reply h e n le full a = ground (
  arith,
  full,
  e,
  n,
  narrow_lem (length xs) (omega arith),
  receive_entries_lem xs (grown h 1 0) full a,
)
