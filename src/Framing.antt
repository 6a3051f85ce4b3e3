-- ===== src/Framing.antt =====
-- `network_send` and `network_receive` of source/server_network.c: a message goes over a socket
-- behind its length in two bytes. The calls of the operating system and of protobuf-c are parameters;
-- a message has less than 2^31 bytes. `none` as the value is a loop out of fuel.
pub mod RoundTrip
pub mod Quiet
pub mod Reliable
use kv_storage_service.Common.{
  ℕ, ◌+◌, ◌*◌, ◌/◌, ◌%◌, Option, none, some, List, [], ◌∷◌, ℤ, pos, minus_one, eq_int, is_zero, not,
  length, if◌then◌else◌,
}
use kv_storage_service.Machine.{M, pure, ◌>>=◌, ◌>>◌, malloc, free}
use kv_storage_service.Message.{MessageT}
use kv_storage_service.Transfer.{Outcome, write_all, read_all}

-- the two bytes of `(short) htons(len)`
abbrev pub htons : ℕ → List ℕ
htons len = len / 256 % 256 ∷ len % 256 ∷ []

-- `ntohs` of two bytes
abbrev pub ntohs : List ℕ → ℕ
ntohs (a ∷ b ∷ []) = a * 256 + b
ntohs _ = 0

-- The results: the code or the message, and the socket.
abbrev pub Sent : Type 0 → Type 0
Sent Sock = Option (ℤ × Sock)

abbrev pub Received : Type 0 → Type 0
Received Sock = Option (Option MessageT × Sock)

module _ {Sock : Type 0} (close : Sock → Sock) where
  -- The test of the result of a `write_all` of `len` bytes, and what comes after it.
  unfoldable pub sent_all : ℕ → Option (ℤ × Sock) → (Sock → M (Sent Sock)) → M (Sent Sock)
  sent_all len none rest = pure none
  sent_all len (some (nbytes, s)) rest =
      if not (eq_int nbytes (pos len)) then pure (some (minus_one, close s)) else rest s

  module _ (write : Sock → List ℕ → Outcome ℕ × Sock) (pack : MessageT → List ℕ) where
    unfoldable pub network_send : ℕ → Option MessageT → Sock → M (Sent Sock)
    network_send n none s = pure (some (minus_one, s))
    network_send n (some msg) s = do
      let bytes = pack msg
      granted ← malloc
      if not granted
          then pure (some (minus_one, s))
          else sent_all 2 (write_all write n (htons (length bytes)) s) (λ t.
            sent_all (length bytes) (write_all write n bytes t)
              (λ u. do free (some bytes); pure (some (pos 0, u))))

  -- The same for a `read_all`; a socket that the client has closed is not closed again.
  unfoldable pub got_all :
      ℕ → Option (ℤ × List ℕ × Sock) → (List ℕ → Sock → M (Received Sock)) → M (Received Sock)
  got_all len none rest = pure none
  got_all len (some (nbytes, buf, s)) rest =
      if not (eq_int nbytes (pos len))
      then pure (some (none, (if is_zero nbytes then s else close s)))
      else rest buf s

  module _ (read : Sock → ℕ → Outcome (List ℕ) × Sock) (unpack : List ℕ → Option MessageT) where
    -- The end of `network_receive`; the buffer is only given back where it is a message.
    unfoldable pub unpacked : List ℕ → Option MessageT → Sock → M (Received Sock)
    unpacked buf none s = pure (some (none, s))
    unpacked buf (some msg) s = do free (some buf); pure (some (some msg, s))

    unfoldable pub network_receive : ℕ → Sock → M (Received Sock)
    network_receive n s = got_all 2 (read_all read n 2 s) (λ size t. do
      granted ← malloc
      if not granted
          then pure (some (none, t))
          else got_all (ntohs size) (read_all read n (ntohs size) t)
              (λ buf u. unpacked buf (unpack buf) u))
