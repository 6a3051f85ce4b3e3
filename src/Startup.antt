-- ===== src/Startup.antt =====
-- `main` and `handle_sigint` of source/server_hashtable.c, which put the server together. What
-- ZooKeeper and the operating system answer are parameters; argv is a list of strings.
pub mod Joined
pub mod Port
use kv_storage_service.Common.{
  ℕ, ◌+◌, ◌-◌, ◌^◌, ◌%◌, ℤ, pos, negsuc, minus_one, Bool, true, false, not, ◌&&◌, Option, none,
  some, List, [], ◌∷◌, ◌++◌, ltb, length, drop, pos_part, if◌then◌else◌,
}
use kv_storage_service.Machine.{M, pure, fault, ◌>>=◌, ◌>>◌, malloc, free, deref, is_null}
use kv_storage_service.Text.{Str}
use kv_storage_service.Text.Token.{atoi}
use kv_storage_service.LinkedList.{strdup}
use kv_storage_service.Stats.{Stats}
use kv_storage_service.Table.{Table}
use kv_storage_service.Message.{MessageT}
use kv_storage_service.Skeleton.{server_skeleton_init, server_skeleton_destroy}
use kv_storage_service.Address.{Rtable, Internet}
use kv_storage_service.Listening.{System, Accepted, server_network_init, network_main_loop}
use kv_storage_service.Joining.{set_next_server, set_antecessor}

-- "127.0.0.1:"
abbrev pub localhost : Str
localhost = 49 ∷ 50 ∷ 55 ∷ 46 ∷ 48 ∷ 46 ∷ 48 ∷ 46 ∷ 49 ∷ 58 ∷ []

-- The address of the server, in an array of 128 characters.
unfoldable pub address_data : Str → M Str
address_data port =
    if ltb (length localhost + length port) 128 then pure (localhost ++ port) else fault

-- `(short)` of an int
abbrev pub to_short : ℕ → ℤ
to_short n = if ltb n (2 ^ 15) then pos n else negsuc (2 ^ 16 - 1 - n)

abbrev pub short_of : ℤ → ℤ
short_of (pos n) = to_short (n % 2 ^ 16)
short_of (negsuc n) = to_short (2 ^ 16 - 1 - n % 2 ^ 16)

-- The answers of ZooKeeper: whether it can be reached at an address, whether "/chain" is missing and
-- can be made, the path of the node that it makes with some data, and the nodes of the chain.
pub record ZooKeeper : Type 0 where
  pub init : Str → Bool
  pub root_missing : Bool
  pub create_root : Bool
  pub create_node : Str → Option Str
  pub wget_children : Option (List Str)

-- How the program ends: by exit, by a return at once, or by the return at its end, with the address
-- that it has made known, its name in the chain, the server that it is connected to, the table that
-- it has given back, the threads, and the sockets that are closed.
pub data Ending (Sock : Type 0) : Type 0 where
  exited : ℤ → Ending Sock
  returned : ℤ → Ending Sock
  served :
      Str → Str → Option (Rtable Sock) → Option Table → Accepted Sock → Option Sock → Ending Sock

-- `connect_to_zookeeper` of source/zoo_helper.c
abbrev pub connect_to_zookeeper :
    {Sock : Type 0} → ZooKeeper → Str → M (Ending Sock) → M (Ending Sock)
connect_to_zookeeper zookeeper address rest =
    if not (zookeeper.init address) then pure (exited (pos 1)) else rest

-- `handle_sigint`, with the socket that is closed.
unfoldable pub handle_sigint :
    {Sock : Type 0}
    → Option Stats
    → Option Table
    → Option Sock
    → Option Str
    → M (Ending Sock × Option Sock)
handle_sigint stats table socket_n node_id = do
  if is_null table then pure (pos 0) else server_skeleton_destroy stats table
  free node_id
  pure (exited (pos 0), socket_n)

module _ {Sock : Type 0} (system : System Sock) (internet : Internet Sock) (zookeeper : ZooKeeper)
    (zoo_get : Str → Option Str) (usable : ℕ → ℕ)
    (network_send_receive : Rtable Sock → MessageT → M (Option MessageT × Rtable Sock))
    (pthread_create : ℤ → Bool) (connections : List Sock) where
  -- From the node's name on, with the nodes of the chain.
  unfoldable pub serve_chain :
      Option Sock → Str → Str → List Str → Option Stats → Option Table → M (Ending Sock)
  serve_chain socket_n address node_id children stats table = do
    (_, next) ← set_next_server internet zoo_get usable node_id children none
    (_, filled) ← set_antecessor internet zoo_get network_send_receive node_id children table
    free (some tt)
    (_, accepted) ← network_main_loop pthread_create connections filled
    free (some node_id)
    server_skeleton_destroy stats filled
    pure (served address node_id next filled accepted socket_n)

  -- From the path of the node on: its name is what follows "/chain/".
  unfoldable pub enter_chain :
      Bool → Bool → Option Sock → Str → Option Stats → Option Table → Option Str → M (Ending Sock)
  enter_chain path_space list_space socket_n address stats table none = pure (exited (pos 1))
  enter_chain path_space list_space socket_n address stats table (some path) =
      if not path_space then fault else do
        name ← strdup (some (drop 7 path))
        elim zookeeper.wget_children [
          | none ↦ pure (exited (pos 1))
          | some children ↦ if not list_space then fault else do
            node_id ← deref name
            serve_chain socket_n address node_id children stats table
        ]

  -- `main`, for the arguments behind the name of the program.
  unfoldable pub start : Str → Str → Str → M (Ending Sock)
  start port lists zookeeper_address = do
    number ← atoi port
    n_lists ← atoi lists
    let (socket_n, failed) = server_network_init system (short_of number)
    (stats, table) ← server_skeleton_init n_lists
    address ← address_data port
    connect_to_zookeeper zookeeper zookeeper_address (do
      path_space ← malloc
      list_space ← malloc
      if zookeeper.root_missing && not zookeeper.create_root
          then pure (exited (pos 1))
          else enter_chain path_space list_space socket_n address stats table
              (zookeeper.create_node address))

  unfoldable pub main : List Str → M (Ending Sock)
  main (program ∷ port ∷ lists ∷ zookeeper_address ∷ []) = start port lists zookeeper_address
  main _ = pure (returned minus_one)
