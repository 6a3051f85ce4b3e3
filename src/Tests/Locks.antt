-- ===== src/Tests/Locks.antt =====
-- Three threads under the lock of source/server_skeleton.c.
use kv_storage_service.Common.{ℕ, ◌≡◌, ◌≢◌, refl, ◌⊎◌, inl, ◌+ℤ◌, pos, arith, get_or, [], ◌∷◌}
use kv_storage_service.RwLock.{read_waits, write_waits, start_write}
use kv_storage_service.RwLock.System.{
  idle, reading, asleep_read, asleep_write, writing, call_read, call_write, write_enters,
  read_sleeps, System, pick, Reach, here, next,
}
use kv_storage_service.RwLock.Safety.{mutual_exclusion, no_lost_wakeup}

-- Thread 0 writes, and thread 1 sleeps before a read.
abbrev contended : System
contended = record {
  lock = record { n_readers = pos 0; n_writers = pos 1 };
  threads = writing ∷ asleep_read ∷ idle ∷ [];
}

contended-Reach : Reach 3 contended
unfolding read_waits start_write write_waits ◌+ℤ◌
contended-Reach =
    next
      (next
        (next (next here (pick 0 (omega arith) call_write))
          (pick 0 (omega arith) (write_enters refl)))
        (pick 1 (omega arith) call_read))
      (pick 1 (omega arith) (read_sleeps refl))

mutual_exclusion_example :
    (get_or contended.threads 1 idle ≢ writing) × (get_or contended.threads 1 idle ≢ reading)
mutual_exclusion_example = mutual_exclusion contended-Reach 0 1 (omega arith) refl

no_lost_wakeup_example :
    (j : ℕ) × ((get_or contended.threads j idle ≡ writing)
      ⊎ ((get_or contended.threads j idle ≡ reading)
          × (get_or contended.threads 1 idle ≡ asleep_write)))
no_lost_wakeup_example = no_lost_wakeup contended-Reach 1 (inl refl)
