-- ===== src/Printing.antt =====
-- What the command loop of source/client_hashtable.c prints.
use kv_storage_service.Common.{ℤ, Option, none, some, List, [], ◌∷◌, ◌++◌}
use kv_storage_service.Machine.{M, pure, fault, ◌>>=◌, ◌>>◌, deref, memcpy, to_size}
use kv_storage_service.Text.{Str}
use kv_storage_service.Block.{Bytes, Block, block_destroy}
use kv_storage_service.Entry.{Entry}
use kv_storage_service.LinkedList.{KeyArray}
use kv_storage_service.Stats.{Stats, stats_destroy}
use kv_storage_service.Stub.{rtable_free_keys, rtable_free_entries}

-- What a call of printf or fwrite writes.
pub data Output : Type 0 where
  prompt newline usage bye : Output
  put_failed put_done get_failed del_failed del_done : Output
  size_failed keys_failed table_failed stats_failed : Output
  size_line operations_line time_line clients_line : ℤ → Output
  key_line : Str → Output
  entry_key : Str → Output
  bytes : Bytes → Output

-- `fwrite` of the contents of a block
unfoldable pub write_block : Block → M Output
write_block b = do
  src ← deref b.buffer
  written ← memcpy (to_size b.datasize) src
  pure (bytes written)

unfoldable pub print_value : Option Block → M (List Output)
print_value none = pure (get_failed ∷ newline ∷ [])
print_value (some b) = do
  written ← write_block b
  block_destroy (some b)
  pure (written ∷ newline ∷ newline ∷ [])

-- The loop over the keys, up to the NULL.
unfoldable pub key_lines : KeyArray → M (List Output)
key_lines [] = fault
key_lines (none ∷ keys) = pure []
key_lines (some k ∷ keys) = do rest ← key_lines keys; pure (key_line k ∷ rest)

unfoldable pub print_keys : Option KeyArray → M (List Output)
print_keys none = pure (keys_failed ∷ newline ∷ [])
print_keys (some keys) = do
  lines ← key_lines keys
  rtable_free_keys (some keys)
  pure (lines ++ newline ∷ [])

-- The loop over the entries, up to the NULL.
unfoldable pub entry_lines : List (Option Entry) → M (List Output)
entry_lines [] = fault
entry_lines (none ∷ entries) = pure []
entry_lines (some e ∷ entries) = do
  key ← deref e.key
  value ← deref e.value
  written ← write_block value
  rest ← entry_lines entries
  pure (entry_key key ∷ written ∷ newline ∷ rest)

unfoldable pub print_table : Option (List (Option Entry)) → M (List Output)
print_table none = pure (table_failed ∷ newline ∷ [])
print_table (some entries) = do
  lines ← entry_lines entries
  rtable_free_entries (some entries)
  pure (lines ++ newline ∷ [])

unfoldable pub print_stats : Option Stats → M (List Output)
print_stats none = pure (stats_failed ∷ [])
print_stats (some s) = do
  stats_destroy (some s)
  pure (
      operations_line s.n_operations
      ∷ time_line s.total_time
      ∷ clients_line s.n_clients
      ∷ newline
      ∷ [])
