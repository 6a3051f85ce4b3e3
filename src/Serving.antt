-- ===== src/Serving.antt =====
-- `thread_client` of source/server_network.c: what a thread does for the client that it is made for,
-- over the parameters of Framing and the one of Stub. The globals of the server are passed in and
-- out as if no other thread ran in between; `clocks` is what gettimeofday reads in each turn. `none`
-- as the value is a loop out of fuel: `fuel` for the loops of a transfer, `n` for the turns.
pub mod Turn
pub mod Session
pub mod Wire
use kv_storage_service.Common.{
  ℕ, zero, suc, Bool, true, false, not, Option, none, some, List, ℤ, minus_one, eq_int,
  if◌then◌else◌,
}
use kv_storage_service.Machine.{M, pure, ◌>>=◌, ◌>>◌, free}
use kv_storage_service.Stats.{update_clients_connect, update_clients_disconnect}
use kv_storage_service.Message.{MessageT}
use kv_storage_service.Transfer.{Outcome}
use kv_storage_service.Framing.{Sent, Received, network_send, network_receive}
use kv_storage_service.Skeleton.{Server, Outside}
use kv_storage_service.Invoke.{invoke}

-- Whether the loop goes on, with the socket and the server as they are left.
abbrev pub Turned : Type 0 → Type 0 → Type 0
Turned Sock Net = Option (Bool × Sock × Server Net)

module _ {Sock Net : Type 0} (close : Sock → Sock) (write : Sock → List ℕ → Outcome ℕ × Sock)
    (pack : MessageT → List ℕ) (read : Sock → ℕ → Outcome (List ℕ) × Sock)
    (unpack : List ℕ → Option MessageT)
    (network_send_receive : Net → MessageT → M (Option MessageT × Net)) where
  -- What follows the call of `network_send`; what protobuf-c gives back is not counted.
  unfoldable pub replied : Sent Sock → Server Net → M (Turned Sock Net)
  replied none s = pure none
  replied (some (result, sock)) s = pure (some (not (eq_int result minus_one), sock, s))

  -- What follows the call of `network_receive`.
  unfoldable pub answer_message : ℕ → Outside → Received Sock → Server Net → M (Turned Sock Net)
  answer_message fuel clock none s = pure none
  answer_message fuel clock (some (none, sock)) s = pure (some (false, sock, s))
  answer_message fuel clock (some (some msg, sock)) s = do
    (result, reply, s') ← invoke network_send_receive clock (some msg) s
    if eq_int result minus_one
        then pure (some (false, sock, s'))
        else do sent ← network_send close write pack fuel reply sock; replied sent s'

  unfoldable pub client_turn : ℕ → Outside → Sock → Server Net → M (Turned Sock Net)
  client_turn fuel clock sock s = do
    received ← network_receive close read unpack fuel sock
    answer_message fuel clock received s

  abbrev loop_on :
      Turned Sock Net
      → (Sock → Server Net → M (Option (Sock × Server Net)))
      → M (Option (Sock × Server Net))
  loop_on none rest = pure none
  loop_on (some (false, sock, s)) rest = pure (some (sock, s))
  loop_on (some (true, sock, s)) rest = rest sock s

  unfoldable pub client_loop :
      ℕ → ℕ → (ℕ → Outside) → Sock → Server Net → M (Option (Sock × Server Net))
  client_loop fuel zero clocks sock s = pure none
  client_loop fuel (suc n) clocks sock s = do
    turned ← client_turn fuel (clocks n) sock s
    loop_on turned (client_loop fuel n clocks)

  -- The end of the thread.
  unfoldable pub hang_up : Option (Sock × Server Net) → M (Option (Sock × Server Net))
  hang_up none = pure none
  hang_up (some (sock, s)) = do
    stats ← update_clients_disconnect s.stats
    free (some tt)
    pure (some (close sock, record s { stats = stats }))

  unfoldable pub thread_client :
      ℕ → ℕ → (ℕ → Outside) → Sock → Server Net → M (Option (Sock × Server Net))
  thread_client fuel n clocks sock s = do
    stats ← update_clients_connect s.stats
    ended ← client_loop fuel n clocks sock (record s { stats = stats })
    hang_up ended
