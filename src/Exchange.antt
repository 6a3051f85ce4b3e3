-- ===== src/Exchange.antt =====
-- `network_send_receive` of source/client_network.c: a request goes over the socket of a remote
-- table, and the reply comes back over it. The calls of the operating system and of protobuf-c are
-- parameters; a message has less than 2^31 bytes. `none` as the value is a loop out of fuel.
pub mod Reply
use kv_storage_service.Common.{
  ℕ, Option, none, some, List, ℤ, pos, eq_int, not, length, if◌then◌else◌,
}
use kv_storage_service.Machine.{M, pure, ◌>>=◌, ◌>>◌, malloc, free}
use kv_storage_service.Message.{MessageT}
use kv_storage_service.Transfer.{Outcome, write_all, read_all}
use kv_storage_service.Framing.{htons, ntohs, Received, unpacked}

module _ {Sock : Type 0} (close : Sock → Sock) where
  -- The test of the result of a `write_all` of `len` bytes, and what comes after it.
  unfoldable pub wrote_part : ℕ → Option (ℤ × Sock) → (Sock → M (Received Sock)) → M (Received Sock)
  wrote_part len none rest = pure none
  wrote_part len (some (nbytes, s)) rest =
      if not (eq_int nbytes (pos len)) then pure (some (none, close s)) else rest s

  -- The same for a `read_all`; unlike the server, the client closes its socket on every error.
  unfoldable pub read_part :
      ℕ → Option (ℤ × List ℕ × Sock) → (List ℕ → Sock → M (Received Sock)) → M (Received Sock)
  read_part len none rest = pure none
  read_part len (some (nbytes, buf, s)) rest =
      if not (eq_int nbytes (pos len)) then pure (some (none, close s)) else rest buf s

  module _ (read : Sock → ℕ → Outcome (List ℕ) × Sock) (unpack : List ℕ → Option MessageT) where
    -- From the point where the request is sent: the size of the reply, and the reply.
    unfoldable pub read_reply : ℕ → List ℕ → Sock → M (Received Sock)
    read_reply n request s = read_part 2 (read_all read n 2 s) (λ size t. do
      free (some request)
      granted ← malloc
      if not granted
          then pure (some (none, t))
          else read_part (ntohs size) (read_all read n (ntohs size) t)
              (λ buf u. unpacked close read unpack buf (unpack buf) u))

    module _ (write : Sock → List ℕ → Outcome ℕ × Sock) (pack : MessageT → List ℕ) where
      unfoldable pub network_send_receive : ℕ → Option MessageT → Sock → M (Received Sock)
      network_send_receive n none s = pure (some (none, s))
      network_send_receive n (some msg) s = do
        let bytes = pack msg
        granted ← malloc
        if not granted
            then pure (some (none, s))
            else wrote_part 2 (write_all write n (htons (length bytes)) s)
                (λ t. wrote_part (length bytes) (write_all write n bytes t) (read_reply n bytes))
