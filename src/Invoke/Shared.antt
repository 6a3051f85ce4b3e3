-- ===== src/Invoke/Shared.antt =====
-- What the handlers of source/server_skeleton.c share: the statistics, and a client's requests.
use kv_storage_service.Common.{
  ℕ, sym, Bool, true, false, if◌then◌else◌, zero, refl, ◌+◌, ◌<◌, ◌≤◌, ◌≡◌, Option, some, ℤ, pos,
  ◌+ℤ◌, narrow, length, arith, suc,
}
use mathlib.Core.Path.{subst}
use kv_storage_service.Machine.{Heap, IsAmple, grown, malloc, int_max, long_max}
use kv_storage_service.Text.{Str}
use kv_storage_service.Block.{Bytes, block_create}
use kv_storage_service.LinkedList.Items.{block_of}
use kv_storage_service.RwLock.{Lock, start_read, end_read, start_write, end_write}
use kv_storage_service.Stats.{Stats, update_operations}
use kv_storage_service.Message.{MessageT, EntryT, message_init, op_put, ct_entry}
use kv_storage_service.Skeleton.{Server, Outside, interval}
use kv_storage_service.Invoke.{count_operation}

-- Statistics that have room for one more operation, of the clock's length.
pub record IsCounting (clock : Outside) (stats : Option Stats) : Type 0 where
  pub operations : ℕ
  pub time : ℕ
  pub clients : ℤ
  pub there :
      stats
      ≡ some (record { n_operations = pos operations; total_time = pos time; n_clients = clients })
  pub operations_lt : operations < int_max
  pub taken : ℕ
  pub taken_eq : interval clock ≡ pos taken
  pub time_fits : time + taken ≤ long_max

-- the statistics after the operation
abbrev pub counted : {clock : Outside} {stats : Option Stats} → IsCounting clock stats → Stats
counted c = record {
  n_operations = pos (suc c.operations);
  total_time = pos (c.time + c.taken);
  n_clients = c.clients;
}

-- the time of m operations of t microseconds
abbrev pub work : ℕ → ℕ → ℕ
work zero t = 0
work (suc m) t = t + work m t

-- Statistics that have room for m more operations of the clock's length.
pub record Budget (clock : Outside) (m : ℕ) (stats : Option Stats) : Type 0 where
  pub operations : ℕ
  pub time : ℕ
  pub clients : ℤ
  pub there :
      stats
      ≡ some (record { n_operations = pos operations; total_time = pos time; n_clients = clients })
  pub operations_le : operations + m ≤ int_max
  pub taken : ℕ
  pub taken_eq : interval clock ≡ pos taken
  pub time_fits : time + work m taken ≤ long_max

module _ {clock : Outside} {m : ℕ} {stats : Option Stats} (b : Budget clock (suc m) stats) where
  -- room for the next one
  abbrev pub counting : IsCounting clock stats
  counting = record {
    operations = b.operations;
    time = b.time;
    clients = b.clients;
    there = b.there;
    operations_lt = omega (arith, b.operations_le);
    taken = b.taken;
    taken_eq = b.taken_eq;
    time_fits = omega (arith, b.time_fits);
  }

  -- what is left when it is counted, and when it is not
  pub spent : Budget clock m (some (counted counting))
  spent = record {
    operations = suc b.operations;
    time = b.time + b.taken;
    clients = b.clients;
    there = refl;
    operations_le = omega (arith, b.operations_le);
    taken = b.taken;
    taken_eq = b.taken_eq;
    time_fits = omega (arith, b.time_fits);
  }

  pub saved : Budget clock m stats
  saved = record {
    operations = b.operations;
    time = b.time;
    clients = b.clients;
    there = b.there;
    operations_le = omega (arith, b.operations_le);
    taken = b.taken;
    taken_eq = b.taken_eq;
    time_fits = omega (arith, b.time_fits);
  }

-- What is left of the budget, whether or not the operation was counted.
pub left :
    {clock : Outside} {m : ℕ} {stats stats' : Option Stats} (b : Budget clock (suc m) stats)
    (missing : Bool)
    → stats' ≡ (if missing then stats else some (counted (counting b)))
    → Budget clock m stats'
left b true e = subst (Budget _ _) (sym e) (saved b)
left b false e = subst (Budget _ _) (sym e) (spent b)

pub count_operation_lem :
    {Net : Type 0} (clock : Outside) (s : Server Net) (c : IsCounting clock s.stats) (h : Heap)
    → count_operation clock s h ≡ some (record s { stats = some (counted c) }, h)
unfolding count_operation update_operations ◌+ℤ◌
count_operation_lem clock s c h = rw (c.there, c.taken_eq) (ground arith)

-- The request to store v under k, as `rtable_put` sends it.
abbrev pub put_message : Str → Bytes → MessageT
put_message k v = record message_init {
  opcode = op_put;
  c_type = ct_entry;
  entry = some (record { key = some k; value = record { len = length v; contents = some v } });
}

abbrev pub entry_t : Str → Bytes → EntryT
entry_t k v = record { key = some k; value = record { len = length v; contents = some v } }

-- A section of the lock leaves the counters as they were.
pub end_write-start_write : (l : Lock) → end_write (start_write l) ≡ l
unfolding end_write start_write ◌+ℤ◌
end_write-start_write l = ground arith

pub end_read-start_read : (l : Lock) → (end_read (start_read l)).0 ≡ l
unfolding end_read start_read ◌+ℤ◌
end_read-start_read l = ground arith

-- The block that `invoke` makes of the value of a request.
pub block_create_lem :
    (v : Bytes) (h : Heap)
    → IsAmple h
    → 0 < length v
    → length v ≤ int_max
    → block_create (narrow (pos (length v))) (some v) h ≡ some (some (block_of v), grown h 1 0)
unfolding block_create malloc
block_create_lem v h e lt le = ground arith
