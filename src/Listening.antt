-- ===== src/Listening.antt =====
-- server_network_init, network_main_loop and server_network_close of source/server_network.c, over
-- what the operating system answers. A socket that is closed is listed with the results.
pub mod Accepting
use kv_storage_service.Common.{
  ℕ, ◌+◌, ◌-◌, ◌^◌, ◌%◌, ℤ, pos, negsuc, minus_one, Bool, true, false, not, Option, none, some,
  List, [], ◌∷◌, if◌then◌else◌,
}
use kv_storage_service.Machine.{M, pure, fault, ◌>>=◌, ◌>>◌, malloc, add_int, is_null}
use kv_storage_service.Table.{Table}

-- The calls that make a socket ready, by whether they succeed; a port is in the byte order of the host.
pub record System (Sock : Type 0) : Type 0 where
  pub new_socket : Option Sock
  pub setsockopt : Sock → Bool
  pub bind : Sock → ℕ → Bool
  pub listen : Sock → ℕ → Bool

-- a short as the 16 bits of a port
abbrev pub to_port : ℤ → ℕ
to_port (pos n) = n % 2 ^ 16
to_port (negsuc n) = 2 ^ 16 - 1 - n % 2 ^ 16

module _ {Sock : Type 0} (system : System Sock) where
  -- The calls on a new socket, up to the first that fails: what is returned, and what is closed.
  unfoldable pub prepared : ℤ → Sock → Option Sock × List Sock
  prepared port sockfd =
      if not (system.setsockopt sockfd)
      then (none, sockfd ∷ [])
      else if not (system.bind sockfd (to_port port))
      then (none, sockfd ∷ [])
      else if not (system.listen sockfd 10)
      then (none, sockfd ∷ [])
      else (some sockfd, [])

  unfoldable pub server_network_init : ℤ → Option Sock × List Sock
  server_network_init port = elim system.new_socket [
    | none ↦ (none, [])
    | some sockfd ↦ prepared port sockfd
  ]

-- struct thread_parameters, less the table
pub record ThreadParameters (Sock : Type 0) : Type 0 where
  pub connsockfd : Sock
  pub thread_number : ℤ

-- the threads that are made, and the sockets that are closed
pub record Accepted (Sock : Type 0) : Type 0 where
  pub threads : List (ThreadParameters Sock)
  pub closed : List Sock

-- The loop, over the sockets that `accept` gives before it fails. `pthread_create` is whether it
-- succeeds for a thread of that number; where it fails, `pthread_detach` is called on a thread that
-- has no value.
unfoldable pub accept_loop : {Sock : Type 0} → (ℤ → Bool) → ℤ → List Sock → M (Accepted Sock)
accept_loop pthread_create n_threads [] = pure (record { threads = []; closed = [] })
accept_loop pthread_create n_threads (connsockfd ∷ rest) = do
  granted ← malloc
  elim granted [
    | false ↦ do
      others ← accept_loop pthread_create n_threads rest
      pure (record others { closed = connsockfd ∷ others.closed })
    | true ↦ do
      next ← add_int n_threads (pos 1)
      if not (pthread_create n_threads) then fault else do
        others ← accept_loop pthread_create next rest
        pure (record others {
          threads =
              (record { connsockfd = connsockfd; thread_number = n_threads }) ∷ others.threads;
        })
  ]

-- The result of the function, with what the loop did.
unfoldable pub network_main_loop :
    {Sock : Type 0} → (ℤ → Bool) → List Sock → Option Table → M (ℤ × Accepted Sock)
network_main_loop pthread_create connections table =
    if is_null table
    then pure (minus_one, record { threads = []; closed = [] })
    else do accepted ← accept_loop pthread_create (pos 1) connections; pure (pos 0, accepted)
