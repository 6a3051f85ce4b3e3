-- ===== src/Invoke/Listing.antt =====
-- OP_GETTABLE of source/server_skeleton.c.
use kv_storage_service.Common.{
  ℕ, zero, suc, ◌-◌, ◌+◌, ◌*◌, ◌<◌, ◌≤◌, ◌≡◌, refl, Option, none, some, [], ◌∷◌, ◌++◌, pos, map,
  length, take-length, arith,
}
use mathlib.Core.List.{map-append, append_assoc}
use kv_storage_service.Machine.{Heap, M, IsAmple, grown, malloc, int_max, ◌>>=◌}
use kv_storage_service.Text.{Str}
use kv_storage_service.Block.{Bytes}
use kv_storage_service.LinkedList.{strdup}
use kv_storage_service.LinkedList.Items.{Items, entry_of}
use kv_storage_service.Table.View.{Buckets, chain_of, table_of, total}
use kv_storage_service.Table.Walk.{table_size_lem, add_sizes}
use kv_storage_service.Table.Listing.{all_items}
use kv_storage_service.Message.{EntryT, MessageT, op_gettable, ct_table}
use kv_storage_service.Stub.{plain_message}
use kv_storage_service.Skeleton.{
  Server, Outside, accept, list_entry, list_nodes, list_slots, extend,
}
use kv_storage_service.Invoke.{invoke_gettable, read_done, reading, dispatch, invoke}
use kv_storage_service.Invoke.Shared.{
  IsCounting, counted, count_operation_lem, end_read-start_read, entry_t,
}

-- the message of an entry
abbrev pub listed : Str × Bytes → Option EntryT
listed i = some (entry_t i.0 i.1)

-- the reply with all entries
abbrev pub table_reply : Buckets → MessageT
table_reply bs = record (accept (plain_message op_gettable) op_gettable ct_table) {
  entries = some (map listed (all_items bs) ++ none ∷ []);
  n_entries = total bs;
}

list_entry_lem :
    (i : Str × Bytes) (h : Heap)
    → IsAmple h
    → list_entry (entry_of i) h ≡ some (listed i, grown h 3 0)
unfolding list_entry strdup malloc
list_entry_lem i h full = ground (arith, take-length i.1)

list_nodes_lem :
    (xs : Items) (room : ℕ) (h : Heap)
    → IsAmple h
    → length xs ≤ room
    → list_nodes room (map entry_of xs) h
      ≡ some (some (map listed xs, room - length xs), grown h (3 * length xs) 0)
unfolding list_nodes
list_nodes_lem [] zero h full le = ground arith
list_nodes_lem [] (suc room) h full le = ground arith
list_nodes_lem (i ∷ xs) zero h full le = absurd (omega arith)
list_nodes_lem (i ∷ xs) (suc room) h full le =
    ground (arith, list_entry_lem i h full, list_nodes_lem xs room (grown h 3 0) full)

list_slots_lem :
    (bs : Buckets) (room : ℕ) (h : Heap)
    → IsAmple h
    → total bs < room
    → list_slots (length bs) room (map chain_of bs) h
      ≡ some (some (map listed (all_items bs) ++ none ∷ []), grown h (3 * total bs) 0)
unfolding list_slots total all_items extend
list_slots_lem [] zero h full lt = absurd (omega arith)
list_slots_lem [] (suc room) h full lt = ground arith
list_slots_lem (none ∷ bs) room h full lt = ground (arith, list_slots_lem bs room h full)
list_slots_lem (some xs ∷ bs) room h full lt =
    rw (list_nodes_lem xs room h full (omega arith), ◌>>=◌)
      (rw
        (list_slots_lem bs (room - length xs) (grown h (3 * length xs) 0) full (omega arith), ◌>>=◌)
        (rw (map-append, append_assoc) (ground arith)))

module _ {Net : Type 0} (network_send_receive : Net → MessageT → M (Option MessageT × Net)) where
  -- On a server with a valid table of fewer than 2^31 - 1 entries and room in its statistics, where
  -- nothing is refused, OP_GETTABLE replies with all entries of the table, slot by slot, and their
  -- number; the table, the lock and the next server stay as they were.
  pub invoke_gettable_lem :
      (clock : Outside) (s : Server Net) (bs : Buckets) (h : Heap)
      → s.table ≡ some (table_of bs)
      → total bs < int_max
      → IsAmple h
      → (c : IsCounting clock s.stats)
      → (s' : Server Net) × (h' : Heap) × (invoke network_send_receive clock
            (some (plain_message op_gettable))
            s
            h
          ≡ some (
            (
              pos 0,
              some (record (accept (plain_message op_gettable) op_gettable ct_table) {
                entries = some (map listed (all_items bs) ++ none ∷ []);
                n_entries = total bs;
              }),
              s',
            ),
            h',
          ))
        × (s'.table ≡ s.table)
        × (s'.lock ≡ s.lock)
        × (s'.next_server ≡ s.next_server)
        × (s'.stats ≡ some (counted c))
        × IsAmple h'
  unfolding invoke dispatch invoke_gettable plain_message malloc
  invoke_gettable_lem clock s bs h e lt full c =
      let s₁ : Server Net = read_done (reading s) in
      let h₁ = grown (grown h 1 0) (3 * total bs) 0 in
      (
        record s₁ { stats = some (counted c) },
        h₁,
        ground (
          arith,
          e,
          full,
          table_size_lem bs h (omega arith),
          add_sizes (total bs) 1 h (omega arith),
          list_slots_lem bs (total bs + 1) (grown h 1 0) full (omega arith),
          table_size_lem bs h₁ (omega arith),
          count_operation_lem clock s₁ c h₁,
        ),
        refl,
        end_read-start_read s.lock,
        refl,
        refl,
        full,
      )
