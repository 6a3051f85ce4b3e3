-- ===== src/Joining/Successor.antt =====
-- What `set_next_server` of source/server_hashtable.c makes of the server's connection.
use kv_storage_service.Common.{
  ℕ, ◌^◌, ◌<◌, ◌≤◌, ◌≡◌, refl, Option, none, some, List, ◌∷◌, ◌++◌, Option-cases, ℤ, pos, minus_one,
  length, false, Bool-cases, inl, inr, arith,
}
use kv_storage_service.Machine.{Heap, IsAmple, grown, released, malloc, free, ◌>>=◌}
use kv_storage_service.Text.{Str}
use kv_storage_service.Text.Token.{print_int}
use kv_storage_service.Address.{
  Rtable, Internet, network_close, rtable_disconnect, get_node_data, chain_path,
}
use kv_storage_service.Address.Parse.{IsPart, print_int-IsPart}
use kv_storage_service.Address.Connect.{
  address_of, connected, Reaches, rtable_connect_lem, stale, old_address-strict, old_address-roomy,
}
use kv_storage_service.Members.{find_successor}
use kv_storage_service.Joining.{keeps_successor, change_successor, set_next_server}

pub get_node_data_lem :
    (zoo_get : Str → Option Str) (node address : Str) (h : Heap)
    → zoo_get (chain_path ++ node) ≡ some address
    → IsAmple h
    → get_node_data zoo_get node h ≡ some (some address, grown h 2 1)
unfolding get_node_data malloc free
get_node_data_lem zoo_get node address h e full = ground (arith, e, full)

-- A connection that `rtable_connect` may have made.
pub record IsMade {Sock : Type 0} (r : Rtable Sock) : Type 0 where
  pub host : Str
  pub port : ℕ
  pub fd : Sock
  pub address : r.server_address ≡ some host
  pub part : IsPart host
  pub dotted : length host ≤ 15
  pub number : r.server_port ≡ pos port
  pub port_lt : port < 2 ^ 16
  pub opened : r.sockfd ≡ some fd

abbrev pub IsNextMade : {Sock : Type 0} → Option (Rtable Sock) → Type 0
IsNextMade none = Unit
IsNextMade (some r) = IsMade r

module _ {Sock : Type 0} (internet : Internet Sock) (zoo_get : Str → Option Str) where
  -- The connection is given up, whether or not its socket closes.
  pub rtable_disconnect_lem :
      (r : Rtable Sock) (h : Heap)
      → IsMade r
      → IsAmple h
      → (c : ℤ) × (h' : Heap) × (rtable_disconnect internet (some r) h ≡ some (c, h')) × IsAmple h'
  unfolding rtable_disconnect network_close free
  rtable_disconnect_lem r h m full = elim (Bool-cases (internet.close m.fd)) [
    | inl b ↦ (pos 0, released (released h 1) 1, ground (arith, b, m.opened, m.address), full)
    | inr b ↦ (minus_one, h, ground (arith, b, m.opened), full)
  ]

  module _ (usable : ℕ → ℕ) (roomy : (n : ℕ) → n ≤ 16 → 24 ≤ usable n) where
    keeps_successor_lem :
        (host rest : Str) (next : Option (Rtable Sock)) (h : Heap)
        → IsNextMade next
        → IsAmple h
        → (h' : Heap) × (keeps_successor internet usable (some (host ++ 58 ∷ rest)) next h
            ≡ some (false, h'))
          × IsAmple h'
    unfolding keeps_successor free
    keeps_successor_lem host rest none h m full = (h, refl, full)
    keeps_successor_lem host rest (some r) h m full =
        let (c, h₁, run, full₁) = rtable_disconnect_lem r (grown h 1 0) m full in
        (
          released h₁ 1,
          rw
              (
                old_address-roomy r usable m.host m.port h roomy m.dotted m.address m.number
                    m.port_lt full,
                ◌>>=◌,
              )
              (rw (stale m.host host (print_int (pos m.port)) rest m.part (print_int-IsPart m.port))
                (ground (arith, run))),
          full₁,
        )

    -- Where nothing is refused, an allocation of at most 16 bytes has room for 24, and the operating
    -- system connects to the successor at the address that it has in ZooKeeper: `set_next_server`
    -- returns 0 and connects to it, also where the server was connected to that address already, as
    -- the comparison of the addresses never finds them equal. The old connection, if there is one,
    -- has a host without a colon, a port of 16 bits and a socket.
    pub set_next_server-connected :
        (node_id successor host : Str) (children : List Str) (port : ℕ) (sock : Sock)
        (next : Option (Rtable Sock)) (h : Heap)
        → find_successor node_id children none ≡ some successor
        → zoo_get (chain_path ++ successor) ≡ some (address_of host port)
        → Reaches internet host port sock
        → IsNextMade next
        → IsAmple h
        → (h' : Heap) × (set_next_server internet zoo_get usable node_id children next h
            ≡ some ((pos 0, some (connected host port sock)), h'))
          × IsAmple h'
    unfolding set_next_server change_successor free
    set_next_server-connected node_id successor host children port sock next h e f r m full =
        let (h₁, run, full₁) =
          keeps_successor_lem host (print_int (pos port)) next (grown h 2 1) m full in
        (
          released (grown h₁ 2 0) 1,
          rw
              (
                e,
                set_next_server,
                get_node_data_lem zoo_get successor (address_of host port) h f full,
                ◌>>=◌,
              )
              (rw (run, ◌>>=◌)
                (ground (arith, rtable_connect_lem internet host port sock h₁ r full₁))),
          full₁,
        )

  -- With the room that the C standard gives an allocation, `set_next_server` on a server that has a
  -- successor and a connection with a port that is not negative meets undefined behaviour, whatever
  -- malloc answers: no address that is made for the comparison fits.
  pub set_next_server-overflow :
      (node_id successor : Str) (children : List Str) (port : ℕ) (r : Rtable Sock) (h : Heap)
      → find_successor node_id children none ≡ some successor
      → r.server_port ≡ pos port
      → set_next_server internet zoo_get (λ n. n) node_id children (some r) h ≡ none
  unfolding set_next_server change_successor keeps_successor
  set_next_server-overflow node_id successor children port r h e f =
      elim (Option-cases (get_node_data zoo_get successor h)) [
        | inl g ↦ rw (e, set_next_server) (ground (arith, g))
        | inr ((d, h₁), g) ↦
            rw (e, set_next_server) (ground (arith, g, old_address-strict r port h₁ f))
      ]
