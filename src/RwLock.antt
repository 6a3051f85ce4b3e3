-- ===== src/RwLock.antt =====
-- The reader-writer lock of source/server_skeleton.c: two counters, and a condition variable that
-- is broadcast to. Every section between `pthread_mutex_lock` and the wait or the unlock is atomic.
pub mod System
pub mod Safety
use kv_storage_service.Common.{ℤ, pos, minus_one, ◌+ℤ◌, Bool, ◌||◌, is_pos, is_zero}

-- n_readers and n_writers
pub record Lock : Type 0 where
  pub n_readers : ℤ
  pub n_writers : ℤ

-- the condition of the loop of `start_read`
unfoldable pub read_waits : Lock → Bool
read_waits l = is_pos l.n_writers

-- `start_read` behind its loop
unfoldable pub start_read : Lock → Lock
start_read l = record l { n_readers = l.n_readers +ℤ pos 1 }

-- `end_read`, with whether it broadcasts
unfoldable pub end_read : Lock → Lock × Bool
end_read l = let n = l.n_readers +ℤ minus_one in (record l { n_readers = n }, is_zero n)

-- the condition of the loop of `start_write`
unfoldable pub write_waits : Lock → Bool
write_waits l = is_pos l.n_readers || is_pos l.n_writers

-- `start_write` behind its loop
unfoldable pub start_write : Lock → Lock
start_write l = record l { n_writers = l.n_writers +ℤ pos 1 }

-- `end_write`, which always broadcasts
unfoldable pub end_write : Lock → Lock
end_write l = record l { n_writers = l.n_writers +ℤ minus_one }
