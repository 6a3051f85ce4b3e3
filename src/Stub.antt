-- ===== src/Stub.antt =====
-- source/client_stub.c: the remote table. What carries a message to the server and its reply back,
-- `network_send_receive` of source/client_network.c over sockets and protobuf-c, is the section's
-- parameter, with the connection that it reads and changes.
pub mod Entries
use kv_storage_service.Common.{
  ℕ, zero, suc, ◌+◌, ℤ, pos, Option, none, some, List, [], ◌∷◌, not, ◌==◌, if◌then◌else◌, minus_one,
  narrow, pos_part,
}
use kv_storage_service.Machine.{
  M, pure, fault, ◌>>=◌, ◌>>◌, malloc, free, deref, memcpy, is_null, to_size, add_int,
}
use kv_storage_service.Text.{Str}
use kv_storage_service.Block.{Bytes, Block, block_create}
use kv_storage_service.Entry.{Entry, entry_create, entry_duplicate, entry_destroy}
use kv_storage_service.LinkedList.{KeyArray, strdup, free_each}
use kv_storage_service.Stats.{Stats, stats_create}
use kv_storage_service.Message.{
  BinaryData, EntryT, EntryArray, MessageT, message_init, op_put, op_get, op_del, op_size,
  op_getkeys, op_gettable, op_stats, ct_entry, ct_key, ct_none,
}

-- `memcpy` of the contents of a bytes field
unfoldable pub copy_contents : BinaryData → M Bytes
copy_contents v = if v.len == 0 then pure [] else do src ← deref v.contents; memcpy v.len src

-- The copy of a received value that `rtable_get` makes; the result of `malloc` is not looked at.
unfoldable pub receive_value : BinaryData → M (Option Block)
receive_value v = do
  space ← malloc
  if space
      then (do copy ← copy_contents v; block_create (narrow (pos v.len)) (some copy))
      else (if v.len == 0 then block_create (pos 0) none else fault)

-- An array of n elements that is then read: it may be NULL only where n is 0.
unfoldable pub deref_array : {A : Type 0} → ℕ → Option (List A) → M (List A)
deref_array n (some elements) = pure elements
deref_array zero none = pure []
deref_array (suc n) none = fault

-- The loop of `rtable_get_keys`.
unfoldable pub dup_keys : ℕ → KeyArray → M KeyArray
dup_keys zero keys = pure (none ∷ [])
dup_keys (suc n) [] = fault
dup_keys (suc n) (k ∷ keys) = do copy ← strdup k; rest ← dup_keys n keys; pure (copy ∷ rest)

-- One turn of the loop of `rtable_get_table`.
unfoldable pub receive_entry : Option EntryT → M (Option Entry)
receive_entry e = do
  e' ← deref e
  block ← block_create (narrow (pos e'.value.len)) e'.value.contents
  entry ← entry_create e'.key block
  copy ← entry_duplicate entry
  free block
  free entry
  pure copy

-- The loop of `rtable_get_table`, and the NULL at the end.
unfoldable pub receive_entries : ℕ → EntryArray → M (List (Option Entry))
receive_entries zero entries = pure (none ∷ [])
receive_entries (suc n) [] = fault
receive_entries (suc n) (e ∷ entries) = do
  entry ← receive_entry e
  rest ← receive_entries n entries
  pure (entry ∷ rest)

-- The loop of `rtable_free_entries`.
unfoldable pub destroy_each : List (Option Entry) → M (Unit {0})
destroy_each [] = fault
destroy_each (none ∷ entries) = pure tt
destroy_each (some e ∷ entries) = do entry_destroy (some e); destroy_each entries

unfoldable pub rtable_free_keys : Option KeyArray → M (Unit {0})
rtable_free_keys none = pure tt
rtable_free_keys (some keys) = do free_each keys; free (some keys)

unfoldable pub rtable_free_entries : Option (List (Option Entry)) → M (Unit {0})
rtable_free_entries none = pure tt
rtable_free_entries (some entries) = do destroy_each entries; free (some entries)

-- The reply, if one came and its opcode is the one that answers the request.
unfoldable pub accepted : ℕ → Option MessageT → Option MessageT
accepted opcode none = none
accepted opcode (some reply) = if reply.opcode == opcode + 1 then some reply else none

-- What each operation makes of an accepted reply.
unfoldable pub acknowledge : Option MessageT → ℤ
acknowledge none = minus_one
acknowledge (some reply) = pos 0

unfoldable pub read_value : Option MessageT → M (Option Block)
read_value none = pure none
read_value (some reply) = receive_value reply.value

unfoldable pub read_size : Option MessageT → ℤ
read_size none = minus_one
read_size (some reply) = reply.result

unfoldable pub read_keys : Option MessageT → M (Option KeyArray)
read_keys none = pure none
read_keys (some reply) = do
  let count = narrow (pos reply.n_keys)
  size ← add_int count (pos 1)
  keys ← malloc
  if not keys then pure none else do
    sent ← deref_array (pos_part count) reply.keys
    copies ← dup_keys (pos_part count) sent
    pure (some copies)

unfoldable pub read_entries : Option MessageT → M (Option (List (Option Entry)))
read_entries none = pure none
read_entries (some reply) = do
  table ← malloc
  if not table then pure none else do
    let count = pos_part (narrow (pos reply.n_entries))
    sent ← deref_array count reply.entries
    copies ← receive_entries count sent
    pure (some copies)

-- The structure that `stats_create` returns is written to unchecked.
unfoldable pub read_stats : Option MessageT → M (Option Stats)
read_stats none = pure none
read_stats (some reply) = do
  created ← stats_create
  s ← deref created
  sent ← deref reply.stats
  pure (
      some (record {
        n_operations = sent.n_operations;
        total_time = sent.total_time;
        n_clients = sent.n_clients;
      }))

-- What `rtable_put` sends.
unfoldable pub entry_message : Entry → Block → MessageT
entry_message entry value = record message_init {
  opcode = op_put;
  c_type = ct_entry;
  entry = some (record {
    key = entry.key;
    value = record { len = to_size value.datasize; contents = value.buffer };
  });
}

-- A request that carries a key.
unfoldable pub key_message : ℕ → Str → MessageT
key_message opcode key = record message_init { opcode = opcode; c_type = ct_key; key = some key }

-- A request that carries nothing.
unfoldable pub plain_message : ℕ → MessageT
plain_message opcode = record message_init { opcode = opcode; c_type = ct_none }

-- Each operation returns its result and the connection as it is left; the connection is `none`
-- where the pointer to the remote table is NULL.
module _ {Net : Type 0} (network_send_receive : Net → MessageT → M (Option MessageT × Net)) where
  -- The reply to a message, through `accepted`.
  unfoldable pub exchange : Net → MessageT → M (Option MessageT × Net)
  exchange rtable msg = do
    (received, rtable') ← network_send_receive rtable msg
    pure (accepted msg.opcode received, rtable')

  unfoldable pub rtable_put : Option Net → Option Entry → M (ℤ × Option Net)
  rtable_put none entry = pure (minus_one, none)
  rtable_put (some rtable) none = pure (minus_one, some rtable)
  rtable_put (some rtable) (some entry) =
      if is_null entry.key then pure (minus_one, some rtable) else do
        value ← deref entry.value
        (reply, rtable') ← exchange rtable (entry_message entry value)
        pure (acknowledge reply, some rtable')

  unfoldable pub rtable_get : Option Net → Option Str → M (Option Block × Option Net)
  rtable_get none key = pure (none, none)
  rtable_get (some rtable) none = pure (none, some rtable)
  rtable_get (some rtable) (some key) = do
    (reply, rtable') ← exchange rtable (key_message op_get key)
    value ← read_value reply
    pure (value, some rtable')

  unfoldable pub rtable_del : Option Net → Option Str → M (ℤ × Option Net)
  rtable_del none key = pure (minus_one, none)
  rtable_del (some rtable) none = pure (minus_one, some rtable)
  rtable_del (some rtable) (some key) = do
    (reply, rtable') ← exchange rtable (key_message op_del key)
    pure (acknowledge reply, some rtable')

  unfoldable pub rtable_size : Option Net → M (ℤ × Option Net)
  rtable_size none = pure (minus_one, none)
  rtable_size (some rtable) = do
    (reply, rtable') ← exchange rtable (plain_message op_size)
    pure (read_size reply, some rtable')

  unfoldable pub rtable_get_keys : Option Net → M (Option KeyArray × Option Net)
  rtable_get_keys none = pure (none, none)
  rtable_get_keys (some rtable) = do
    (reply, rtable') ← exchange rtable (plain_message op_getkeys)
    keys ← read_keys reply
    pure (keys, some rtable')

  unfoldable pub rtable_get_table : Option Net → M (Option (List (Option Entry)) × Option Net)
  rtable_get_table none = pure (none, none)
  rtable_get_table (some rtable) = do
    (reply, rtable') ← exchange rtable (plain_message op_gettable)
    entries ← read_entries reply
    pure (entries, some rtable')

  unfoldable pub rtable_stats : Option Net → M (Option Stats × Option Net)
  rtable_stats none = pure (none, none)
  rtable_stats (some rtable) = do
    (reply, rtable') ← exchange rtable (plain_message op_stats)
    stats ← read_stats reply
    pure (stats, some rtable')
