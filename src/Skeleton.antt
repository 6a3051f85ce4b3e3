-- ===== src/Skeleton.antt =====
-- source/server_skeleton.c: a request is run on the table, and the message becomes the reply. A
-- writing request is first passed on to the next server of the chain, through the remote table of
-- source/client_stub.c; the lock is taken as in the source, from the moment that it is free.
use kv_storage_service.Common.{
  ℕ, zero, suc, ◌+◌, ℤ, ◌+ℤ◌, ◌-ℤ◌, ◌*ℤ◌, narrow, Option, none, some, List, [], ◌∷◌, ◌++◌, not,
  if◌then◌else◌,
}
use kv_storage_service.Machine.{
  M, pure, fault, ◌>>=◌, ◌>>◌, malloc, deref, memcpy, is_null, to_size,
}
use kv_storage_service.Entry.{Entry}
use kv_storage_service.LinkedList.{LinkedList, strdup}
use kv_storage_service.Table.{Table, table_create, table_destroy}
use kv_storage_service.Stats.{Stats, stats_create, stats_destroy}
use kv_storage_service.RwLock.{Lock}
use kv_storage_service.Message.{EntryT, EntryArray, MessageT, op_error, ct_none}

-- The globals of the server: the table, `stats`, the counters of the lock, and `next_server`.
pub record Server (Net : Type 0) : Type 0 where
  pub table : Option Table
  pub stats : Option Stats
  pub lock : Lock
  pub next_server : Option Net

-- struct timeval
pub record Timeval : Type 0 where
  pub tv_sec : ℤ
  pub tv_usec : ℤ

-- What comes from outside: the two readings of `gettimeofday` by one request, and how many bytes
-- protobuf-c packs a message into.
pub record Outside : Type 0 where
  pub start : Timeval
  pub finish : Timeval
  pub packed : MessageT → ℕ

-- The interval in microseconds, as the int that `update_operations` takes.
unfoldable pub interval : Outside → ℤ
interval c =
    narrow ((c.finish.tv_sec -ℤ c.start.tv_sec) *ℤ 1000000 +ℤ (c.finish.tv_usec -ℤ c.start.tv_usec))

unfoldable pub server_skeleton_init : ℤ → M (Option Stats × Option Table)
server_skeleton_init n_lists = do
  stats ← stats_create
  table ← table_create n_lists
  pure (stats, table)

unfoldable pub server_skeleton_destroy : Option Stats → Option Table → M ℤ
server_skeleton_destroy stats table = do stats_destroy stats; table_destroy table

-- the reply that says that the request failed, and one that it succeeded
abbrev pub refuse : MessageT → MessageT
refuse msg = record msg { opcode = op_error; c_type = ct_none }

abbrev pub accept : MessageT → ℕ → ℕ → MessageT
accept msg opcode c_type = record msg { opcode = opcode + 1; c_type = c_type }

-- One node of the listing of OP_GETTABLE; `none` where `malloc` refuses its EntryT. The later
-- allocations are not looked at.
unfoldable pub list_entry : Entry → M (Option EntryT)
list_entry e = do
  entrada ← malloc
  if not entrada then pure none else do
    key ← strdup e.key
    value ← deref e.value
    space ← malloc
    if not space then fault else do
      src ← deref value.buffer
      copy ← memcpy (to_size value.datasize) src
      pure (
          some (record {
            key = key;
            value = record { len = to_size value.datasize; contents = some copy };
          }))

-- The inner loop of OP_GETTABLE, into an array with `room` places; `none` is the early return.
unfoldable pub list_nodes : ℕ → List Entry → M (Option (List (Option EntryT) × ℕ))
list_nodes room [] = pure (some ([], room))
list_nodes zero (cur ∷ next) = fault
list_nodes (suc room) (cur ∷ next) = do
  entrada ← list_entry cur
  if is_null entrada then pure none else do
    rest ← list_nodes room next
    pure (elim rest [ none ↦ none | some (entries, left) ↦ some (entrada ∷ entries, left) ])

-- What one list adds to the array, in front of what the other lists add.
unfoldable pub extend :
    Option (List (Option EntryT) × ℕ) → (ℕ → M (Option EntryArray)) → M (Option EntryArray)
extend none others = pure none
extend (some (entries, left)) others = do
  rest ← others left
  pure (elim rest [ none ↦ none | some more ↦ some (entries ++ more) ])

-- The outer loop, over `n` slots, and the NULL at the end.
unfoldable pub list_slots : ℕ → ℕ → List (Option LinkedList) → M (Option EntryArray)
list_slots zero zero lists = fault
list_slots zero (suc room) lists = pure (some (none ∷ []))
list_slots (suc n) room [] = fault
list_slots (suc n) room (none ∷ lists) = list_slots n room lists
list_slots (suc n) room (some l ∷ lists) = do
  found ← list_nodes room l.nodes
  extend found (λ left. list_slots n left lists)
