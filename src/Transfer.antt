-- ===== src/Transfer.antt =====
-- source/message-private.c: the loops around read and write of the operating system, which are
-- parameters here, with the socket as their state. The loops go on after an interruption as often as
-- one comes, so that they take fuel for their turns; `none` is a loop that has not ended by then.
pub mod Writes
pub mod Reads
pub mod Stream
pub mod Reliable
use kv_storage_service.Common.{
  ℕ, zero, suc, ◌-◌, Option, none, some, List, [], ◌∷◌, ◌++◌, ℤ, pos, minus_one, length, drop,
}

-- What a call comes back with: -1 with EINTR, -1 with another error, or what it has moved.
pub data Outcome (A : Type 0) : Type 0 where
  interrupted failed : Outcome A
  moved : A → Outcome A

-- The body of the loop of `write_all`, by what `write` came back with; `again` is the next turn.
unfoldable pub write_turn :
    {Sock : Type 0}
    → (List ℕ → Sock → Option (ℤ × Sock))
    → ℕ
    → List ℕ
    → Outcome ℕ × Sock
    → Option (ℤ × Sock)
write_turn again b bs (interrupted, s) = again (b ∷ bs) s
write_turn again b bs (failed, s) = some (minus_one, s)
write_turn again b bs (moved zero, s) = some (pos 0, s)
write_turn again b bs (moved (suc k), s) = again (drop k bs) s

module _ {Sock : Type 0} (write : Sock → List ℕ → Outcome ℕ × Sock) where
  -- The loop, with the bytes from `buf` to its end: the result, and the socket.
  unfoldable pub write_rest : ℕ → ℕ → List ℕ → Sock → Option (ℤ × Sock)
  write_rest zero bufsize buf s = none
  write_rest (suc n) bufsize [] s = some (pos bufsize, s)
  write_rest (suc n) bufsize (b ∷ bs) s = write_turn (write_rest n bufsize) b bs (write s (b ∷ bs))

  unfoldable pub write_all : ℕ → List ℕ → Sock → Option (ℤ × Sock)
  write_all n buf s = write_rest n (length buf) buf s

-- The body of the loop of `read_all`, for `len` > 0 more bytes behind those in `buf`.
unfoldable pub read_turn :
    {Sock : Type 0}
    → (ℕ → List ℕ → Sock → Option (ℤ × List ℕ × Sock))
    → ℕ
    → List ℕ
    → Outcome (List ℕ) × Sock
    → Option (ℤ × List ℕ × Sock)
read_turn again len buf (interrupted, s) = again len buf s
read_turn again len buf (failed, s) = some (minus_one, buf, s)
read_turn again len buf (moved [], s) = some (pos 0, buf, s)
read_turn again len buf (moved (b ∷ bs), s) = again (len - length (b ∷ bs)) (buf ++ b ∷ bs) s

module _ {Sock : Type 0} (read : Sock → ℕ → Outcome (List ℕ) × Sock) where
  -- The loop: the result, the bytes in the buffer, and the socket.
  unfoldable pub read_rest : ℕ → ℕ → ℕ → List ℕ → Sock → Option (ℤ × List ℕ × Sock)
  read_rest zero bufsize len buf s = none
  read_rest (suc n) bufsize zero buf s = some (pos bufsize, buf, s)
  read_rest (suc n) bufsize (suc len) buf s =
      read_turn (read_rest n bufsize) (suc len) buf (read s (suc len))

  unfoldable pub read_all : ℕ → ℕ → Sock → Option (ℤ × List ℕ × Sock)
  read_all n len s = read_rest n len len [] s
