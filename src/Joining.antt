-- ===== src/Joining.antt =====
-- `set_next_server` and `set_antecessor` of source/server_hashtable.c: a server finds its place in
-- the chain. `zoo_get` is ZooKeeper's, `usable` is the room of an allocation, and the connections are
-- made over the section's parameters.
pub mod Successor
pub mod Transfer
pub mod Replica
pub mod Start
pub mod Window
pub mod Watch
pub mod Leave
use kv_storage_service.Common.{
  ℕ, Option, none, some, List, [], ◌∷◌, Bool, not, ◌&&◌, true, false, ℤ, pos, minus_one, is_zero,
  if◌then◌else◌,
}
use kv_storage_service.Machine.{malloc, M, pure, fault, ◌>>=◌, ◌>>◌, free, deref, is_null}
use kv_storage_service.Text.{Str, strcmp}
use kv_storage_service.Entry.{Entry}
use kv_storage_service.Table.{Table, table_put}
use kv_storage_service.Skeleton.{Server, server_skeleton_init}
use kv_storage_service.Message.{MessageT}
use kv_storage_service.Stub.{rtable_get_table, rtable_free_entries}
use kv_storage_service.Address.{
  Rtable, Internet, rtable_connect, rtable_disconnect, old_address, get_node_data,
}
use kv_storage_service.Members.{find_successor, find_antecessor}

-- The loop of `set_antecessor`: the table after the entries, up to the NULL, are put into it.
unfoldable pub copy_entries : Option Table → List (Option Entry) → M (Option Table)
copy_entries table [] = fault
copy_entries table (none ∷ entries) = pure table
copy_entries table (some e ∷ entries) = do
  (_, table') ← table_put table e.key e.value
  copy_entries table' entries

-- What is done with the entries that came, if they did.
unfoldable pub receive_table : Option Table → Option (List (Option Entry)) → M (Option Table)
receive_table table none = pure table
receive_table table (some entries) = do
  table' ← copy_entries table entries
  rtable_free_entries (some entries)
  pure table'

module _ {Sock : Type 0} (internet : Internet Sock) (usable : ℕ → ℕ) where
  -- Whether the successor is the one that the server is connected to; if not, that one is left.
  unfoldable pub keeps_successor : Option Str → Option (Rtable Sock) → M Bool
  keeps_successor address none = pure false
  keeps_successor address (some r) = do
    old ← old_address usable r
    new ← deref address
    if is_zero (strcmp new old)
        then (do free (some old); pure true)
        else (do rtable_disconnect internet (some r); free (some old); pure false)

module _ {Sock : Type 0} (internet : Internet Sock) (zoo_get : Str → Option Str) where
  module _ (usable : ℕ → ℕ) where
    -- The rest of `set_next_server`, where there is a successor.
    unfoldable pub change_successor : Str → Option (Rtable Sock) → M (ℤ × Option (Rtable Sock))
    change_successor successor next_server = do
      successor_data ← get_node_data zoo_get successor
      same ← keeps_successor internet usable successor_data next_server
      if same then pure (pos 0, next_server) else do
        next ← rtable_connect internet successor_data
        if is_null next then pure (minus_one, none) else do free successor_data; pure (pos 0, next)

    -- the result, and the `next_server` that is left
    unfoldable pub set_next_server :
        Str → List Str → Option (Rtable Sock) → M (ℤ × Option (Rtable Sock))
    set_next_server node_id children next_server = elim (find_successor node_id children none) [
      | none ↦ elim next_server [
        | none ↦ pure (pos 0, none)
        | some r ↦ do rtable_disconnect internet (some r); pure (pos 0, none)
      ]
      | some successor ↦ change_successor successor next_server
    ]

    -- A call of `child_watcher`, by whether the state is ZOO_CONNECTED_STATE and the type is
    -- ZOO_CHILD_EVENT, and by the list that `zoo_wget_children` gives, none where it fails and leaves
    -- the list as malloc made it.
    unfoldable pub child_watcher :
        Bool → Bool → Option (List Str) → Str → Option (Rtable Sock) → M (Option (Rtable Sock))
    child_watcher connected child_event listed node_id next_server = do
      granted ← malloc
      if connected && child_event
          then (if not granted then fault else do
            children ← deref listed
            (_, next) ← set_next_server node_id children next_server
            free (some tt)
            pure next)
          else do free (if granted then some tt else none); pure next_server

  module _ (network_send_receive : Rtable Sock → MessageT → M (Option MessageT × Rtable Sock)) where
    -- The rest of `set_antecessor`, where there is a predecessor.
    unfoldable pub fetch_table : Str → Option Table → M (ℤ × Option Table)
    fetch_table antecessor table = do
      antecessor_data ← get_node_data zoo_get antecessor
      previous_server ← rtable_connect internet antecessor_data
      if is_null previous_server then pure (minus_one, table) else do
        (entries, previous) ← rtable_get_table network_send_receive previous_server
        table' ← receive_table table entries
        rtable_disconnect internet previous
        free antecessor_data
        pure (pos 0, table')

    -- the result, and the table that is left
    unfoldable pub set_antecessor : Str → List Str → Option Table → M (ℤ × Option Table)
    set_antecessor node_id children table = elim (find_antecessor node_id children none) [
      | none ↦ pure (pos 0, table)
      | some antecessor ↦ fetch_table antecessor table
    ]

    -- What `main` makes of the server's globals before it takes requests, in the order of its calls;
    -- the results of the two calls are not looked at.
    unfoldable pub start_server : (ℕ → ℕ) → ℤ → Str → List Str → M (Server (Rtable Sock))
    start_server usable n_lists node_id children = do
      (stats, table) ← server_skeleton_init n_lists
      (_, next) ← set_next_server usable node_id children none
      (_, filled) ← set_antecessor node_id children table
      pure (record {
        table = filled;
        stats = stats;
        lock = record { n_readers = pos 0; n_writers = pos 0 };
        next_server = next;
      })
