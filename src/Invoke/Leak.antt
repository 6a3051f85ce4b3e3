-- ===== src/Invoke/Leak.antt =====
-- Where malloc refuses an entry of OP_GETTABLE of source/server_skeleton.c.
use kv_storage_service.Common.{
  ℕ, zero, suc, ◌+◌, ◌<◌, ◌≡◌, Option, none, some, List, [], ◌∷◌, Bool, true, false, pos, ◌+ℤ◌,
  minus_one, map, length, arith,
}
use kv_storage_service.Machine.{Heap, M, asked, malloc, int_max}
use kv_storage_service.Table.View.{Buckets, chain_of, table_of, total}
use kv_storage_service.Table.Walk.{table_size_lem, add_sizes}
use kv_storage_service.RwLock.{start_read, write_waits}
use kv_storage_service.Message.{MessageT, op_gettable}
use kv_storage_service.Stub.{plain_message}
use kv_storage_service.Skeleton.{
  Server, Outside, refuse, list_entry, list_nodes, list_slots, extend,
}
use kv_storage_service.Invoke.{invoke_gettable, reading, dispatch, invoke}

-- The first entry of the table is refused, wherever it is.
list_slots-refused :
    (bs : Buckets) (room : ℕ) (h : Heap) (rest : List Bool)
    → h.answers ≡ false ∷ rest
    → 0 < total bs
    → total bs < room
    → list_slots (length bs) room (map chain_of bs) h ≡ some (none, asked h)
unfolding list_slots list_nodes list_entry extend total malloc
list_slots-refused [] room h rest e lt le = absurd (omega arith)
list_slots-refused (none ∷ bs) room h rest e lt le =
    ground (arith, list_slots-refused bs room h rest e)
list_slots-refused (some [] ∷ bs) zero h rest e lt le = absurd (omega arith)
list_slots-refused (some [] ∷ bs) (suc room) h rest e lt le =
    ground (arith, list_slots-refused bs (suc room) h rest e)
list_slots-refused (some (i ∷ xs) ∷ bs) zero h rest e lt le = absurd (omega arith)
list_slots-refused (some (i ∷ xs) ∷ bs) (suc room) h rest e lt le = ground (arith, e)

module _ {Net : Type 0} (network_send_receive : Net → MessageT → M (Option MessageT × Net)) where
  -- On a server with a table of at least one entry and fewer than 2^31 - 1 that n threads are reading,
  -- where malloc grants the array of OP_GETTABLE and refuses its first entry, the request fails with
  -- the error, and leaves the lock as if one more thread were reading: it makes every writer wait.
  pub invoke_gettable-leak :
      (clock : Outside) (s : Server Net) (bs : Buckets) (n : ℕ) (h : Heap) (rest : List Bool)
      → s.table ≡ some (table_of bs)
      → 0 < total bs
      → total bs < int_max
      → h.answers ≡ true ∷ false ∷ rest
      → s.lock.n_readers ≡ pos n
      → (s' : Server Net) × (h' : Heap) × (invoke network_send_receive clock
            (some (plain_message op_gettable))
            s
            h
          ≡ some ((minus_one, some (refuse (plain_message op_gettable)), s'), h'))
        × (s'.lock.n_readers ≡ pos (suc n))
        × (write_waits s'.lock ≡ true)
  unfolding invoke dispatch invoke_gettable plain_message malloc start_read ◌+ℤ◌ write_waits
  invoke_gettable-leak clock s bs n h rest e lt le answers readers = (
    reading s,
    asked (asked h),
    ground (
      arith,
      e,
      answers,
      table_size_lem bs h (omega arith),
      add_sizes (total bs) 1 h (omega arith),
      list_slots-refused bs (total bs + 1) (asked h) rest,
    ),
    ground (arith, readers),
    ground (arith, readers),
  )
