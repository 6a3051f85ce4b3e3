-- ===== src/Startup/Joined.antt =====
-- A server that `main` of source/server_hashtable.c puts behind the last one of a chain.
use kv_storage_service.Common.{
  ℕ, suc, ◌^◌, ◌<◌, ◌≤◌, ◌≡◌, refl, ◌∙◌, Bool, true, false, Option, none, some, List, [], ◌∷◌, ◌++◌,
  All, ℤ, pos, length, arith,
}
use kv_storage_service.Machine.{Heap, IsAmple, grown, released, malloc, free, int_max, ◌>>=◌}
use kv_storage_service.Text.{Str}
use kv_storage_service.Text.Token.{print_int}
use kv_storage_service.LinkedList.{strdup}
use kv_storage_service.Stats.{stats_create, stats_destroy}
use kv_storage_service.Table.Create.{empty_slots, total-empty_slots, table_create_lem}
use kv_storage_service.Table.View.{Buckets, table_of, view, total, owned, IsTable}
use kv_storage_service.Table.Walk.{table_destroy_lem}
use kv_storage_service.Table.Listing.{all_items}
use kv_storage_service.Stub.Entries.{IsSized}
use kv_storage_service.Skeleton.{Outside, server_skeleton_init, server_skeleton_destroy}
use kv_storage_service.Invoke.Shared.{IsCounting}
use kv_storage_service.Stub.{plain_message}
use kv_storage_service.Message.{op_gettable}
use kv_storage_service.Invoke.Listing.{table_reply}
use kv_storage_service.Chain.{Chain, Fits}
use kv_storage_service.Address.{Internet, chain_path}
use kv_storage_service.Address.Parse.{atoi-print_int, print_int-le}
use kv_storage_service.Address.Connect.{address_of, Reaches}
use kv_storage_service.Members.{find_successor, find_antecessor}
use kv_storage_service.Joining.{set_next_server}
use kv_storage_service.Joining.Replica.{over, set_antecessor-replica}
use kv_storage_service.Joining.Start.{either_of-empty}
use kv_storage_service.Listening.{System, Accepted, server_network_init}
use kv_storage_service.Listening.Accepting.{Shared, network_main_loop-Shared}
use kv_storage_service.Startup.{
  ZooKeeper, Ending, served, address_data, short_of, serve_chain, enter_chain, start, main,
}

-- "127.0.0.1"
abbrev pub home : Str
home = 49 ∷ 50 ∷ 55 ∷ 46 ∷ 48 ∷ 46 ∷ 48 ∷ 46 ∷ 49 ∷ []

address_data_lem :
    (port : ℕ) (h : Heap)
    → port < 2 ^ 16
    → address_data (print_int (pos port)) h ≡ some (address_of home port, h)
unfolding address_data
address_data_lem port h lt = ground (arith, print_int-le port lt)

server_skeleton_init_lem :
    (n_lists : ℕ) (h : Heap)
    → 0 < n_lists
    → IsAmple h
    → server_skeleton_init (pos n_lists) h
      ≡ some (
        (
          some (record { n_operations = pos 0; total_time = pos 0; n_clients = pos 0 }),
          some (table_of (empty_slots n_lists)),
        ),
        grown h 3 0,
      )
unfolding server_skeleton_init stats_create malloc
server_skeleton_init_lem n_lists h lt full =
    ground (arith, full, (table_create_lem n_lists (grown h 1 0) lt full).0)

module _ (n : ℕ) (clock : Outside) (system : System (Chain (suc n)))
    (internet : Internet (Chain (suc n))) (zookeeper : ZooKeeper) (zoo_get : Str → Option Str)
    (usable : ℕ → ℕ) (pthread_create : ℤ → Bool)
    (creates : (number : ℤ) → pthread_create number ≡ true)
    (connections : List (Chain (suc n))) where
  serve_chain_lem :
      (n_lists : ℕ) (node_id antecessor host address : Str) (children : List Str) (port : ℕ)
      (s : Chain (suc n)) (socket_n : Option (Chain (suc n))) (bs : Buckets) (h : Heap)
      → 0 < n_lists
      → find_successor node_id children none ≡ none
      → find_antecessor node_id children none ≡ some antecessor
      → zoo_get (chain_path ++ antecessor) ≡ some (address_of host port)
      → Reaches internet host port s
      → s.table ≡ some (table_of bs)
      → IsTable bs
      → All IsSized (all_items bs)
      → IsCounting clock s.stats
      → Fits clock (plain_message op_gettable)
      → Fits clock (table_reply bs)
      → total bs < int_max
      → length connections < int_max
      → IsAmple h
      → (after : Buckets) × (a : Accepted (Chain (suc n))) × (h' : Heap) × (serve_chain system
            internet zookeeper zoo_get usable
            (over (suc n) clock)
            pthread_create
            connections
            socket_n
            address
            node_id
            children
            (some (record { n_operations = pos 0; total_time = pos 0; n_clients = pos 0 }))
            (some (table_of (empty_slots n_lists)))
            h
          ≡ some (served address node_id none (some (table_of after)) a socket_n, h'))
        × IsTable after
        × ((q : Str) → view after q ≡ view bs q)
        × Shared 1 connections a.threads a.closed
  unfolding serve_chain free server_skeleton_destroy stats_destroy set_next_server
  serve_chain_lem n_lists node_id antecessor host address children port s socket_n bs h lt last e f
        r has t sized c asks answers room few full =
      let (made, valid, empty) = table_create_lem n_lists h lt full in
      let (after, h₁, run, valid', reads, full') =
        set_antecessor-replica n clock internet zoo_get node_id antecessor host children port s bs
          (empty_slots n_lists) h e f r has t sized c asks answers valid
          (omega (arith, room, total-empty_slots n_lists)) full in
      let (a, h₂, accepted, shared) =
        network_main_loop-Shared pthread_create creates connections (table_of after) (released h₁ 1)
          few in
      (
        after,
        a,
        released (released (released h₂ 1) 1) (owned after),
        rw (last, run, ◌>>=◌)
            (rw (accepted, ◌>>=◌) rw (table_destroy_lem after (released (released h₂ 1) 1), ◌>>=◌)
              refl),
        valid',
        λ q. reads q ∙ either_of-empty (view bs q) (view (empty_slots n_lists) q) (empty q),
        shared,
      )

  -- `start` up to the node of the chain, with what the rest of it does.
  start_lem :
      (port n_lists : ℕ) (node_id zookeeper_address : Str) (children : List Str) (h h' : Heap)
      (ending : Ending (Chain (suc n)))
      → port < 2 ^ 16
      → 0 < n_lists
      → n_lists ≤ int_max
      → zookeeper.init zookeeper_address ≡ true
      → zookeeper.root_missing ≡ false
      → zookeeper.create_node (address_of home port) ≡ some (chain_path ++ node_id)
      → zookeeper.wget_children ≡ some children
      → IsAmple h
      → serve_chain system internet zookeeper zoo_get usable
          (over (suc n) clock)
          pthread_create
          connections
          (server_network_init system (short_of (pos port))).0
          (address_of home port)
          node_id
          children
          (some (record { n_operations = pos 0; total_time = pos 0; n_clients = pos 0 }))
          (some (table_of (empty_slots n_lists)))
          (grown h 6 0)
        ≡ some (ending, h')
      → start system internet zookeeper zoo_get usable
          (over (suc n) clock)
          pthread_create
          connections
          (print_int (pos port))
          (print_int (pos n_lists))
          zookeeper_address
          h
        ≡ some (ending, h')
  unfolding start enter_chain malloc strdup
  start_lem port n_lists node_id zookeeper_address children h h' ending pl lt le reached root made
        kids full run =
      rw (atoi-print_int port h (omega arith), atoi-print_int n_lists h le, ◌>>=◌)
        (rw (server_skeleton_init_lem n_lists h lt full, ◌>>=◌)
          (rw (address_data_lem port (grown h 3 0) pl, ◌>>=◌)
            (rw (reached, root, made) (ground (arith, full, kids, run)))))

  -- `main` with a port below 2^16, with 1 to 2^31 - 1 lists and an address at which ZooKeeper is
  -- reached, where "/chain" is there, the new node of the chain is made with the server's address and
  -- the nodes of the chain are read; where the server is the last of them, behind one that it
  -- reaches and whose table is valid; where each thread can be made and fewer than 2^31 - 1
  -- connections are accepted before `accept` fails; where the other server's statistics have room for
  -- one more operation and its table has less than 2^31 - 1 entries, of at most 2^31 - 1 bytes, that
  -- make a message of less than 64 KiB, as the request does; and
  -- where malloc refuses nothing: the program ends with a return, without undefined behaviour. It has
  -- served a valid table with the same contents as the other server's, with its own address and node
  -- and no next server, each connection has been handed to one thread or closed, and
  -- the listening socket is the one that `server_network_init` gave, if it gave one.
  pub main-replica :
      (port n_lists : ℕ) (program node_id antecessor host zookeeper_address : Str)
      (children : List Str) (there : ℕ) (s : Chain (suc n)) (bs : Buckets) (h : Heap)
      → port < 2 ^ 16
      → 0 < n_lists
      → n_lists ≤ int_max
      → zookeeper.init zookeeper_address ≡ true
      → zookeeper.root_missing ≡ false
      → zookeeper.create_node (address_of home port) ≡ some (chain_path ++ node_id)
      → zookeeper.wget_children ≡ some children
      → find_successor node_id children none ≡ none
      → find_antecessor node_id children none ≡ some antecessor
      → zoo_get (chain_path ++ antecessor) ≡ some (address_of host there)
      → Reaches internet host there s
      → s.table ≡ some (table_of bs)
      → IsTable bs
      → All IsSized (all_items bs)
      → IsCounting clock s.stats
      → Fits clock (plain_message op_gettable)
      → Fits clock (table_reply bs)
      → total bs < int_max
      → length connections < int_max
      → IsAmple h
      → (after : Buckets) × (a : Accepted (Chain (suc n))) × (h' : Heap) × (main system internet
            zookeeper zoo_get usable
            (over (suc n) clock)
            pthread_create
            connections
            (program ∷ print_int (pos port) ∷ print_int (pos n_lists) ∷ zookeeper_address ∷ [])
            h
          ≡ some (
            served
                (address_of home port)
                node_id
                none
                (some (table_of after))
                a
                (server_network_init system (short_of (pos port))).0,
            h',
          ))
        × IsTable after
        × ((q : Str) → view after q ≡ view bs q)
        × Shared 1 connections a.threads a.closed
  unfolding main
  main-replica port n_lists program node_id antecessor host zookeeper_address children there s bs h
        pl lt le reached root made kids last e f r has t sized c asks answers room few full =
      let (after, a, h', run, valid, reads, shared) =
        serve_chain_lem n_lists node_id antecessor host (address_of home port) children there s
          (server_network_init system (short_of (pos port))).0 bs (grown h 6 0) lt last e f r has t
          sized c asks answers room few full in
      (
        after,
        a,
        h',
        start_lem port n_lists node_id zookeeper_address children h h'
            (served (address_of home port) node_id none (some (table_of after)) a
              (server_network_init system (short_of (pos port))).0)
            pl lt le reached root made kids full run,
        valid,
        reads,
        shared,
      )
