-- ===== src/Ends/Connect.antt =====
-- What `set_head_tail` of source/client_hashtable.c connects the client to.
use kv_storage_service.Common.{ℕ, true, ◌≤◌, ◌≡◌, refl, Option, none, some, List, ◌∷◌, pos, arith}
use kv_storage_service.Machine.{Heap, IsAmple, grown, released, malloc, free, ◌>>=◌}
use kv_storage_service.Text.{Str}
use kv_storage_service.Text.Token.{print_int}
use kv_storage_service.LinkedList.{strdup}
use kv_storage_service.Address.{Rtable, Internet}
use kv_storage_service.Address.Parse.{print_int-IsPart}
use kv_storage_service.Address.Connect.{
  address_of, IsReached, rtable_connect_lem, stale, old_address-roomy,
}
use kv_storage_service.Joining.Successor.{IsNextMade, get_node_data_lem, rtable_disconnect_lem}
use kv_storage_service.Members.{find_successor, find_antecessor}
use kv_storage_service.Members.Choice.{IsIn}
use kv_storage_service.Members.Ends.{choose_ends_lem}
use kv_storage_service.Ends.{connect_node, alt_check, renew, set_head_tail, child_watcher}

module _ {Sock : Type 0} (internet : Internet Sock) (zoo_get : Str → Option Str) (usable : ℕ → ℕ)
    (roomy : (n : ℕ) → n ≤ 16 → 24 ≤ usable n) where
  alt_check_lem :
      (r : Option (Rtable Sock)) (node : Str) (a : Rtable Sock) (h : Heap)
      → IsNextMade r
      → IsReached internet zoo_get node a
      → IsAmple h
      → (h' : Heap) × (alt_check internet zoo_get usable r node h ≡ some (pos 1, h')) × IsAmple h'
  unfolding alt_check free
  alt_check_lem none node a h m reached full = (h, refl, full)
  alt_check_lem (some r) node a h m (host, port, sock, f, reaches, e) full =
      let h₁ = grown (grown h 1 0) 2 1 in
      let (c, h₂, run, full₂) =
        rtable_disconnect_lem internet zoo_get r (released (released h₁ 1) 1) m full in
      (
        h₂,
        rw
            (
              old_address-roomy r usable m.host m.port h roomy m.dotted m.address m.number m.port_lt
                  full,
              ◌>>=◌,
            )
            (rw (get_node_data_lem zoo_get node (address_of host port) (grown h 1 0) f full, ◌>>=◌)
              (rw
                (stale m.host host (print_int (pos m.port)) (print_int (pos port)) m.part
                  (print_int-IsPart m.port))
                (ground (arith, run)))),
        full₂,
      )

  connect_node_lem :
      (node : Str) (a : Rtable Sock) (h : Heap)
      → IsReached internet zoo_get node a
      → IsAmple h
      → (h' : Heap) × (connect_node internet zoo_get node h ≡ some (some a, h')) × IsAmple h'
  unfolding connect_node free
  connect_node_lem node a h (host, port, sock, f, reaches, e) full = (
    released (grown (grown h 2 1) 2 0) 1,
    rw (get_node_data_lem zoo_get node (address_of host port) h f full, ◌>>=◌)
        (ground (arith, e, rtable_connect_lem internet host port sock (grown h 2 1) reaches full)),
    full,
  )

  renew_lem :
      (r : Option (Rtable Sock)) (other node : Str) (b a : Rtable Sock) (h : Heap)
      → IsNextMade r
      → IsReached internet zoo_get other b
      → IsReached internet zoo_get node a
      → IsAmple h
      → (h' : Heap) × (renew internet zoo_get usable r other node h ≡ some (some a, h'))
        × IsAmple h'
  unfolding renew strdup malloc free
  renew_lem r other node b a h m seen reached full =
      let (h₁, checked, full₁) = alt_check_lem r other b h m seen full in
      let (h₂, run, full₂) = connect_node_lem node a (grown h₁ 1 0) reached full₁ in
      (released h₂ 1, rw (checked, ◌>>=◌) (ground (arith, full₁, run)), full₂)

  -- Where the chain has a node, the operating system connects to each of its nodes at the address
  -- that it has in ZooKeeper, an allocation of at most 16 bytes has room for 24 and malloc refuses
  -- nothing: `set_head_tail` returns 0 and leaves the client connected to a node without a
  -- predecessor as its head and to a node without a successor as its tail, wherever it was connected
  -- to before. An old connection has a host without a colon, a port of 16 bits and a socket.
  set_head_tail-ends :
      (first : Str) (rest : List Str) (server : Str → Rtable Sock)
      (head tail : Option (Rtable Sock)) (h : Heap)
      → ((node : Str) → IsIn node (first ∷ rest) → IsReached internet zoo_get node (server node))
      → IsNextMade head
      → IsNextMade tail
      → IsAmple h
      → (least greatest : Str) × (h' : Heap) × (set_head_tail internet zoo_get usable
            (first ∷ rest)
            head
            tail
            h
          ≡ some ((pos 0, some (server least), some (server greatest)), h'))
        × IsIn least (first ∷ rest)
        × IsIn greatest (first ∷ rest)
        × (find_antecessor least (first ∷ rest) none ≡ none)
        × (find_successor greatest (first ∷ rest) none ≡ none)
  unfolding set_head_tail
  set_head_tail-ends first rest server head tail h reached mh mt full =
      let (greatest, least, chosen, in_g, in_l, no_next, no_previous) =
        choose_ends_lem first rest in
      let (h₁, begun, full₁) =
        renew_lem head greatest least (server greatest) (server least) h mh (reached greatest in_g)
          (reached least in_l) full in
      let (h₂, ended, _) =
        renew_lem tail least greatest (server least) (server greatest) h₁ mt (reached least in_l)
          (reached greatest in_g) full₁ in
      (
        least,
        greatest,
        h₂,
        rw (chosen, ◌>>=◌) (rw (begun, ◌>>=◌) (rw (ended, ◌>>=◌) refl)),
        in_l,
        in_g,
        no_previous,
        no_next,
      )

  -- Where a call of the client's watcher is for a change of the chain and comes with its nodes, of
  -- which there is at least one; where the operating system connects to each of them at the address
  -- that it has in ZooKeeper, with a host of at most 15 characters, an allocation of at most 16 bytes
  -- has room for 24, as on 64-bit Linux, and malloc refuses nothing: the client is connected to a node
  -- without a predecessor as its head and to a node without a successor as its tail, wherever it was
  -- connected to before. An old connection has a host of at most 15 characters without a colon, a port
  -- of 16 bits and a socket.
  pub child_watcher-ends :
      (first : Str) (rest : List Str) (server : Str → Rtable Sock)
      (head tail : Option (Rtable Sock)) (h : Heap)
      → ((node : Str) → IsIn node (first ∷ rest) → IsReached internet zoo_get node (server node))
      → IsNextMade head
      → IsNextMade tail
      → IsAmple h
      → (least greatest : Str) × (h' : Heap) × (child_watcher internet zoo_get usable true true
            (some (first ∷ rest))
            head
            tail
            h
          ≡ some ((some (server least), some (server greatest)), h'))
        × IsIn least (first ∷ rest)
        × IsIn greatest (first ∷ rest)
        × (find_antecessor least (first ∷ rest) none ≡ none)
        × (find_successor greatest (first ∷ rest) none ≡ none)
  unfolding child_watcher malloc free
  child_watcher-ends first rest server head tail h reached mh mt full =
      let (least, greatest, h', run, in_l, in_g, no_previous, no_next) =
        set_head_tail-ends first rest server head tail (grown h 1 0) reached mh mt full in
      (least, greatest, released h' 1, ground (arith, full, run), in_l, in_g, no_previous, no_next)
