-- ===== src/Joining/Watch.antt =====
-- The watcher of source/server_hashtable.c over the changes of a chain.
use kv_storage_service.Common.{
  ℕ, ◌≤◌, ◌≡◌, refl, sym, ap, ◌∙◌, Option, none, some, List, [], ◌∷◌, Option-cases, pos, Bool, true,
  false, ◌&&◌, Bool-cases, inl, inr, if◌then◌else◌, All, arith,
}
use mathlib.Core.Path.{subst}
use kv_storage_service.Machine.{Heap, M, IsAmple, pure, grown, released, malloc, free, ◌>>=◌}
use kv_storage_service.Text.{Str}
use kv_storage_service.Address.{Rtable, Internet}
use kv_storage_service.Address.Connect.{IsReached}
use kv_storage_service.Members.{find_successor}
use kv_storage_service.Members.Choice.{IsIn, Before, Nearest}
use kv_storage_service.Members.Neighbours.{find_successor-Nearest}
use kv_storage_service.Joining.{set_next_server, child_watcher}
use kv_storage_service.Joining.Successor.{
  IsMade, IsNextMade, rtable_disconnect_lem, set_next_server-connected,
}

-- A call of the watcher: its state, its type, and the list of the nodes.
pub record Event : Type 0 where
  pub connected_state : Bool
  pub child_event : Bool
  pub listed : Option (List Str)

-- the remote table of a node, or none
abbrev pub server_at : {Sock : Type 0} → (Str → Rtable Sock) → Option Str → Option (Rtable Sock)
server_at server none = none
server_at server (some node) = some (server node)

module _ {Sock : Type 0} (internet : Internet Sock) (zoo_get : Str → Option Str) (usable : ℕ → ℕ)
    (node_id : Str) where
  -- The calls of the watcher one after the other.
  abbrev pub watch : List Event → Option (Rtable Sock) → M (Option (Rtable Sock))
  watch [] next = pure next
  watch (e ∷ es) next = do
    next' ←
        child_watcher internet zoo_get usable e.connected_state e.child_event e.listed node_id next
    watch es next'

  -- The connection that the server has to have after a call, and after all of them.
  abbrev pub wanted_after :
      (Str → Rtable Sock) → Event → Option (Rtable Sock) → Option (Rtable Sock)
  wanted_after server e next = elim e.listed [
    | none ↦ next
    | some children ↦
        if e.connected_state && e.child_event
        then server_at server (find_successor node_id children none)
        else next
  ]

  abbrev pub wanted : (Str → Rtable Sock) → List Event → Option (Rtable Sock) → Option (Rtable Sock)
  wanted server [] next = next
  wanted server (e ∷ es) next = wanted server es (wanted_after server e next)

  -- A change of the chain comes with its nodes, to each of which the server can connect.
  abbrev pub IsTold : (Str → Rtable Sock) → Event → Type 0
  IsTold server e =
      (e.connected_state && e.child_event) ≡ true
      → (children : List Str) × ((e.listed ≡ some children)
          × ((node : Str) → IsIn node children → IsReached internet zoo_get node (server node)))

  set_next_server-alone :
      (children : List Str) (next : Option (Rtable Sock)) (h : Heap)
      → find_successor node_id children none ≡ none
      → IsNextMade next
      → IsAmple h
      → (h' : Heap) × (set_next_server internet zoo_get usable node_id children next h
          ≡ some ((pos 0, none), h'))
        × IsAmple h'
  unfolding set_next_server
  set_next_server-alone children none h e m full = (h, ground (arith, e), full)
  set_next_server-alone children (some r) h e m full =
      let (c, h', run, full') = rtable_disconnect_lem internet zoo_get r h m full in
      (h', ground (arith, e, run), full')

  IsReached-IsMade : (node : Str) (r : Rtable Sock) → IsReached internet zoo_get node r → IsMade r
  IsReached-IsMade node r (host, port, sock, f, reaches, e) = record {
    host = host;
    port = port;
    fd = sock;
    address = ap (λ (t : Rtable Sock). t.server_address) e;
    part = reaches.part;
    dotted = reaches.dotted;
    number = ap (λ (t : Rtable Sock). t.server_port) e;
    port_lt = reaches.port_lt;
    opened = ap (λ (t : Rtable Sock). t.sockfd) e;
  }

  module _ (roomy : (n : ℕ) → n ≤ 16 → 24 ≤ usable n) (server : Str → Rtable Sock) where
    change_lem :
        (children : List Str) (next : Option (Rtable Sock)) (h : Heap)
        → ((node : Str) → IsIn node children → IsReached internet zoo_get node (server node))
        → IsNextMade next
        → IsAmple h
        → (h' : Heap) × (set_next_server internet zoo_get usable node_id children next h
            ≡ some ((pos 0, server_at server (find_successor node_id children none)), h'))
          × IsNextMade (server_at server (find_successor node_id children none))
          × IsAmple h'
    change_lem children next h served m full =
        elim (Option-cases (find_successor node_id children none)) [
          | inl e ↦
              let (h', run, full') = set_next_server-alone children next h e m full in
              (h', rw e run, rw e tt, full')
          | inr (node, e) ↦
              let near =
                subst (Nearest Before node_id (λ d. IsIn d children)) e
                  (find_successor-Nearest node_id children) in
              let (host, port, sock, f, reaches, is) = served node near.0 in
              let (h', run, full') =
                set_next_server-connected internet zoo_get usable roomy node_id node host children
                  port sock next h e f reaches m full in
              (
                h',
                rw e (run ∙ ap (λ (r : Rtable Sock). some ((pos 0, some r), h')) (sym is)),
                rw e (IsReached-IsMade node (server node) (served node near.0)),
                full',
              )
        ]

    -- Another event changes nothing.
    idle :
        (e : Event) (next : Option (Rtable Sock))
        → (e.connected_state && e.child_event) ≡ false
        → wanted_after server e next ≡ next
    idle e next off = ground (arith, off)

    child_watcher_lem :
        (e : Event) (next : Option (Rtable Sock)) (h : Heap)
        → IsTold server e
        → IsNextMade next
        → IsAmple h
        → (h' : Heap) × (child_watcher internet zoo_get usable e.connected_state e.child_event
              e.listed node_id next h
            ≡ some (wanted_after server e next, h'))
          × IsNextMade (wanted_after server e next)
          × IsAmple h'
    unfolding child_watcher malloc free
    child_watcher_lem e next h told m full =
        elim (Bool-cases (e.connected_state && e.child_event)) [
          | inl on ↦
              let (children, (there, served)) = told on in
              let (h', run, made, full') = change_lem children next (grown h 1 0) served m full in
              (released h' 1, ground (arith, on, there, full, run), rw (there, on) made, full')
          | inr off ↦
              let same = idle e next off in
              (
                released (grown h 1 0) 1,
                rw same (ground (arith, off, full)),
                subst IsNextMade (sym same) m,
                full,
              )
        ]

    pub watch_lem :
        (es : List Event) (next : Option (Rtable Sock)) (h : Heap)
        → All (IsTold server) es
        → IsNextMade next
        → IsAmple h
        → (h' : Heap) × (watch es next h ≡ some (wanted server es next, h')) × IsAmple h'
    watch_lem [] next h told m full = (h, refl, full)
    watch_lem (e ∷ es) next h (told, rest) m full =
        let (h₁, run, made, full₁) = child_watcher_lem e next h told m full in
        let (h₂, runs, full₂) = watch_lem es (wanted_after server e next) h₁ rest made full₁ in
        (h₂, rw (run, ◌>>=◌) runs, full₂)
