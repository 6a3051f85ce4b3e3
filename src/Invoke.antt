-- ===== src/Invoke.antt =====
-- `invoke` of source/server_skeleton.c: one handler for each opcode. Each returns the result, the
-- message as it is left, and the globals of the server.
pub mod Shared
pub mod Put
pub mod Get
pub mod Del
pub mod Listing
pub mod Leak
pub mod Keys
use kv_storage_service.Common.{
  ℕ, suc, ◌+◌, ℤ, pos, minus_one, narrow, Option, none, some, not, ◌==◌, is_zero, eq_int, pos_part,
  if◌then◌else◌,
}
use kv_storage_service.Machine.{
  M, pure, fault, ◌>>=◌, ◌>>◌, malloc, free, deref, memcpy, is_null, add_int, to_size,
}
use kv_storage_service.Text.{Str}
use kv_storage_service.Block.{Block, block_create, block_destroy}
use kv_storage_service.Entry.{entry_create}
use kv_storage_service.Table.{Table, table_put, table_get, table_remove, table_size, table_get_keys}
use kv_storage_service.Stats.{Stats, update_operations}
use kv_storage_service.RwLock.{Lock, start_read, end_read, write_waits, start_write, end_write}
use kv_storage_service.Message.{
  BinaryData, EntryT, MessageT, op_put, op_get, op_del, op_size, op_getkeys, op_gettable, op_stats,
  op_error, ct_none, ct_value, ct_result, ct_keys, ct_table, ct_stats,
}
use kv_storage_service.Stub.{rtable_put, rtable_del}
use kv_storage_service.Skeleton.{Server, Outside, interval, refuse, accept, list_slots}

-- `update_operations(stats, interval)`
unfoldable pub count_operation : {Net : Type 0} → Outside → Server Net → M (Server Net)
count_operation clock s = do
  stats ← update_operations s.stats (interval clock)
  pure (record s { stats = stats })

module _ {Net : Type 0} (network_send_receive : Net → MessageT → M (Option MessageT × Net)) where
  -- `if (next_server != NULL) rtable_put(next_server, entry_create(key, dados))`
  unfoldable pub forward_put : Option Net → EntryT → Option Block → M (Option Net)
  forward_put none e dados = pure none
  forward_put (some next) e dados = do
    entry ← entry_create e.key dados
    (_, next') ← rtable_put network_send_receive (some next) entry
    pure next'

  -- Where `start_write` has to wait, no other thread runs that would wake it.
  unfoldable pub invoke_put : Outside → MessageT → Server Net → M (ℤ × MessageT × Server Net)
  invoke_put clock msg s = do
    if write_waits s.lock then fault else do
      e ← deref msg.entry
      dados ← block_create (narrow (pos e.value.len)) e.value.contents
      (res, table) ← table_put s.table e.key dados
      next ← forward_put s.next_server e dados
      let s' = record s { table = table; lock = end_write (start_write s.lock); next_server = next }
      free dados
      if eq_int res minus_one
          then pure (minus_one, refuse msg, s')
          else do s'' ← count_operation clock s'; pure (pos 0, accept msg op_put ct_none, s'')

  -- `if (next_server != NULL) rtable_del(next_server, key)`
  unfoldable pub forward_del : Option Net → Option Str → M (Option Net)
  forward_del none key = pure none
  forward_del (some next) key = do
    (_, next') ← rtable_del network_send_receive (some next) key
    pure next'

  unfoldable pub invoke_del : Outside → MessageT → Server Net → M (ℤ × MessageT × Server Net)
  invoke_del clock msg s = do
    if write_waits s.lock then fault else do
      (result, table) ← table_remove s.table msg.key
      next ← forward_del s.next_server msg.key
      let s' = record s { table = table; lock = end_write (start_write s.lock); next_server = next }
      if not (is_zero result)
          then pure (pos 0, refuse msg, s')
          else do s'' ← count_operation clock s'; pure (pos 0, accept msg op_del ct_none, s'')

-- The reading handlers, under the lock's reading side, and the dispatch.
module _ {Net : Type 0} where
  -- The end of a reading section, and its start and end.
  abbrev pub reading : Server Net → Server Net
  reading s = record s { lock = start_read s.lock }

  abbrev pub read_done : Server Net → Server Net
  read_done s = record s { lock = (end_read s.lock).0 }

  -- The reply of OP_GET with a copy of the block that was found.
  unfoldable pub reply_value :
      Outside → MessageT → Block → Server Net → M (ℤ × MessageT × Server Net)
  reply_value clock msg b s = do
    space ← malloc
    if not space
        then (do
          block_destroy (some b)
          pure (
            minus_one,
            record (refuse msg) { value = record { len = msg.value.len; contents = none } },
            s,
          ))
        else do
          src ← deref b.buffer
          copy ← memcpy (to_size b.datasize) src
          block_destroy (some b)
          s' ← count_operation clock s
          pure (
            pos 0,
            record (accept msg op_get ct_value) {
              value = record { len = to_size b.datasize; contents = some copy };
            },
            s',
          )

  unfoldable pub invoke_get : Outside → MessageT → Server Net → M (ℤ × MessageT × Server Net)
  invoke_get clock msg s = do
    block ← table_get s.table msg.key
    let s' = read_done (reading s)
    if is_null block
        then (do block_destroy block; pure (pos 0, refuse msg, s'))
        else do b ← deref block; reply_value clock msg b s'

  unfoldable pub invoke_size : Outside → MessageT → Server Net → M (ℤ × MessageT × Server Net)
  invoke_size clock msg s = do
    size ← table_size s.table
    let s' = read_done (reading s)
    if eq_int size minus_one then pure (minus_one, refuse msg, s') else do
      s'' ← count_operation clock s'
      pure (pos 0, record (accept msg op_size ct_result) { result = size }, s'')

  unfoldable pub invoke_getkeys : Outside → MessageT → Server Net → M (ℤ × MessageT × Server Net)
  invoke_getkeys clock msg s = do
    keys ← table_get_keys s.table
    if is_null keys
        then pure (minus_one, record (refuse msg) { keys = none }, read_done (reading s))
        else do
          n ← table_size s.table
          s' ← count_operation clock (read_done (reading s))
          pure (
            pos 0,
            record (accept msg op_getkeys ct_keys) { keys = keys; n_keys = to_size n },
            s',
          )

  -- Where an EntryT is refused in the loop, the source returns with the lock still taken. The part
  -- of the array that is filled by then is left out: `n_entries` does not count it.
  unfoldable pub invoke_gettable : Outside → MessageT → Server Net → M (ℤ × MessageT × Server Net)
  invoke_gettable clock msg s = do
    total ← table_size s.table
    room ← add_int total (pos 1)
    space ← malloc
    if not space
        then pure (minus_one, record (refuse msg) { entries = none }, read_done (reading s))
        else do
          t ← deref s.table
          listed ← list_slots (pos_part t.size) (pos_part room) t.lists
          if is_null listed then pure (minus_one, refuse msg, reading s) else do
            n ← table_size s.table
            s' ← count_operation clock (read_done (reading s))
            pure (
              pos 0,
              record (accept msg op_gettable ct_table) { entries = listed; n_entries = to_size n },
              s',
            )

  unfoldable pub invoke_stats : MessageT → Server Net → M (ℤ × MessageT × Server Net)
  invoke_stats msg s = do
    statistics ← malloc
    if not statistics then pure (minus_one, refuse msg, s) else do
      g ← deref s.stats
      pure (
        pos 0,
        record (accept msg op_stats ct_stats) {
          stats = some (record {
            n_operations = g.n_operations;
            total_time = g.total_time;
            n_clients = g.n_clients;
          });
        },
        s,
      )

module _ {Net : Type 0} (network_send_receive : Net → MessageT → M (Option MessageT × Net)) where
  -- the `switch`
  unfoldable pub dispatch : Outside → MessageT → Server Net → M (ℤ × MessageT × Server Net)
  dispatch clock msg s =
      if msg.opcode == op_put
      then invoke_put network_send_receive clock msg s
      else if msg.opcode == op_get
      then invoke_get clock msg s
      else if msg.opcode == op_del
      then invoke_del network_send_receive clock msg s
      else if msg.opcode == op_size
      then invoke_size clock msg s
      else if msg.opcode == op_getkeys
      then invoke_getkeys clock msg s
      else if msg.opcode == op_gettable
      then invoke_gettable clock msg s
      else if msg.opcode == op_stats
      then invoke_stats msg s
      else pure (minus_one, refuse msg, s)

  unfoldable pub invoke :
      Outside → Option MessageT → Server Net → M (ℤ × Option MessageT × Server Net)
  invoke clock none s = pure (minus_one, none, s)
  invoke clock (some msg) s =
      if is_null s.table
      then pure (minus_one, some msg, s)
      else do (result, msg', s') ← dispatch clock msg s; pure (result, some msg', s')
