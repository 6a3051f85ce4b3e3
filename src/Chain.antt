-- ===== src/Chain.antt =====
-- Chain replication: each server of the chain passes the writes it gets on to the next one, by the
-- remote table of source/client_stub.c. The connection of a server to the next is here that server
-- itself, with all that follow it: what `network_send_receive` sends, the loop of `thread_client` of
-- source/server_network.c takes up, and its reply comes back. A connection that the next server has
-- closed after an error is not told apart from an open one.
pub mod Put
pub mod Del
pub mod Last
pub mod Get
use kv_storage_service.Common.{
  ℕ, zero, suc, ◌+◌, ◌^◌, ◌<◌, ◌≤◌, ltb, false, ◌≡◌, Option, none, some, minus_one, eq_int,
  if◌then◌else◌,
}
use kv_storage_service.Machine.{M, pure, fault, ◌>>=◌, ◌>>◌, int_max}
use kv_storage_service.Table.View.{Buckets, Contents, table_of, view, total, IsTable}
use kv_storage_service.Message.{MessageT}
use kv_storage_service.RwLock.{write_waits}
use kv_storage_service.Skeleton.{Server, Outside}
use kv_storage_service.Invoke.{invoke}
use kv_storage_service.Invoke.Shared.{Budget}

-- A server with at most n - 1 servers behind it.
abbrev pub Chain : ℕ → Type 0
Chain zero = Unit
Chain (suc n) = Server (Chain n)

-- A message whose length fits into the 16 bits of its frame.
abbrev pub Fits : Outside → MessageT → Type 0
Fits clock msg = clock.packed msg < 2 ^ 16

-- `htons` keeps 16 bits of a length, and a longer message is cut where it is read: what protobuf-c
-- makes of the cut bytes, and of the rest as the next message, is not followed here.
unfoldable pub carried : Outside → Option MessageT → M (Unit {0})
carried clock none = pure tt
carried clock (some msg) = if ltb (clock.packed msg) (2 ^ 16) then pure tt else fault

-- One turn of the loop of `thread_client`, from the message to the reply; where `invoke` fails the
-- loop ends, and the sender gets no reply. Both messages go over the wire.
unfoldable pub serve : (n : ℕ) → Outside → Chain n → MessageT → M (Option MessageT × Chain n)
serve zero clock c msg = pure (none, c)
serve (suc n) clock s msg = do
  carried clock (some msg)
  (result, reply, s') ← invoke (serve n clock) clock (some msg) s
  let answer = if eq_int result minus_one then none else reply
  carried clock answer
  pure (answer, s')

-- The same at the last server of the chain, which a client connects to for reading.
unfoldable pub serve_last : (n : ℕ) → Outside → Chain n → MessageT → M (Option MessageT × Chain n)
serve_last zero clock c msg = pure (none, c)
serve_last (suc n) clock s msg = elim s.next_server [
  | none ↦ serve (suc n) clock s msg
  | some next ↦ do
    (reply, next') ← serve_last n clock next msg
    pure (reply, record s { next_server = some next' })
]

abbrev pub Tail : {A : Type 0} → (A → Type 0) → Option A → Type 0
Tail P none = Unit
Tail P (some a) = P a

-- The server and all behind it have a valid table with the contents f and room for m more entries,
-- their statistics have room for m more operations, and no one is inside their locks.
abbrev pub Ready : ℕ → (n : ℕ) → Contents → Outside → Chain n → Type 0
Ready m zero f clock c = ⊥
Ready m (suc n) f clock s =
    (bs : Buckets) × (s.table ≡ some (table_of bs))
    × IsTable bs
    × ((q : _) → view bs q ≡ f q)
    × (total bs + m ≤ int_max)
    × Budget clock m s.stats
    × (write_waits s.lock ≡ false)
    × Tail (Ready m n f clock) s.next_server
