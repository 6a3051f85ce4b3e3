-- ===== src/Tests/Starts.antt =====
-- A server that is started, and the connections that it accepts.
use kv_storage_service.Common.{
  ℕ, ◌≡◌, ◌⊎◌, refl, true, false, none, some, [], ◌∷◌, ◌++◌, pos, arith,
}
use kv_storage_service.Machine.{Heap}
use kv_storage_service.Text.{Str}
use kv_storage_service.Text.Token.{print_int}
use kv_storage_service.Table.View.{Buckets, table_of, view, IsTable}
use kv_storage_service.Table.Listing.{all_items}
use kv_storage_service.Chain.{Chain}
use kv_storage_service.Address.{chain_path}
use kv_storage_service.Address.Connect.{address_of}
use kv_storage_service.Joining.Replica.{over}
use kv_storage_service.Listening.{System, Accepted, network_main_loop, server_network_init}
use kv_storage_service.Listening.Accepting.{Shared, network_main_loop-Shared}
use kv_storage_service.Startup.{ZooKeeper, served, main, short_of}
use kv_storage_service.Startup.Port.{opened, server_network_init_lem}
use kv_storage_service.Startup.Joined.{home, main-replica}
use kv_storage_service.Tests.Chains.{clock, last, counters-IsCounting}
use kv_storage_service.Tests.Joins.{
  host, here, here-Reaches, find_successor-last, find_antecessor-last,
}
use kv_storage_service.Tests.Members.{nodes, node2, node3}
use kv_storage_service.Tests.Tables.{fresh, one_entry, one_entry-IsTable, one_entry-room}

-- The second call of malloc is refused.
abbrev scarce : Heap
scarce = record { answers = true ∷ false ∷ []; allocs = 0; frees = 0 }

network_main_loop_example :
    (a : Accepted ℕ) × (h' : Heap) × (network_main_loop
        (λ number. true)
        (7 ∷ 8 ∷ 9 ∷ [])
        (some (table_of one_entry))
        scarce
      ≡ some ((pos 0, a), h'))
    × Shared 1 (7 ∷ 8 ∷ 9 ∷ []) a.threads a.closed
network_main_loop_example =
    network_main_loop-Shared (λ number. true) (λ number. refl) (7 ∷ 8 ∷ 9 ∷ []) (table_of one_entry)
      scarce (omega arith)

abbrev system : System (Chain 1)
system = record {
  new_socket = some last;
  setsockopt = λ sock. true;
  bind = λ sock port. true;
  listen = λ sock backlog. true;
}

-- The node of the chain is made with the address of the server.
abbrev zookeeper : ZooKeeper
zookeeper = record {
  init = λ address. true;
  root_missing = false;
  create_root = false;
  create_node = λ address. some (chain_path ++ node3);
  wget_children = some nodes;
}

main_example :
    (after : Buckets) × (a : Accepted (Chain 1)) × (h' : Heap) × (main system here zookeeper
        (λ path. some (address_of host 8080))
        (λ n. n)
        (over 1 clock)
        (λ number. true)
        (last ∷ last ∷ [])
        (host ∷ print_int (pos 9000) ∷ print_int (pos 4) ∷ host ∷ [])
        fresh
      ≡ some (
        served
            (address_of home 9000)
            node3
            none
            (some (table_of after))
            a
            (server_network_init system (short_of (pos 9000))).0,
        h',
      ))
    × IsTable after
    × ((q : Str) → view after q ≡ view one_entry q)
    × Shared 1 (last ∷ last ∷ []) a.threads a.closed
main_example =
    main-replica 0 clock system here zookeeper (λ path. some (address_of host 8080)) (λ n. n)
      (λ number. true) (λ number. refl) (last ∷ last ∷ []) 9000 4 host node3 node2 host host nodes
      8080 last one_entry fresh (omega arith) (omega arith) (omega arith) refl refl refl refl
      find_successor-last find_antecessor-last refl here-Reaches refl one_entry-IsTable
      (unfold all_items in ((omega arith, omega arith), tt)) counters-IsCounting (omega arith)
      (omega arith) one_entry-room (omega arith) refl

-- a port of which the short is negative
server_network_init_example :
    ((s : Chain 1) × (system.new_socket ≡ some s)
      × (server_network_init system (short_of (pos 40000)) ≡ (some s, []))
      × (system.bind s 40000 ≡ true)
      × (system.listen s 10 ≡ true))
    ⊎ (server_network_init system (short_of (pos 40000)) ≡ (none, opened system.new_socket))
server_network_init_example = server_network_init_lem system 40000 (omega arith)
