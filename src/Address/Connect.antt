-- ===== src/Address/Connect.antt =====
-- `rtable_connect` reaches the server at an address, and the address that is later made of the
-- remote table is another one.
use kv_storage_service.Common.{
  Option, ℕ, ◌+◌, ◌%◌, ◌^◌, ◌<◌, ◌≤◌, ◌≡◌, ◌≢◌, sym, pos, is_zero, none, some, [], ◌∷◌, ◌++◌,
  length, true, false, Bool-cases, inl, inr, arith,
}
use mathlib.Core.List.{head-eq_of_cons-eq, tail-eq_of_cons-eq}
use kv_storage_service.Machine.{Heap, IsAmple, grown, malloc, ◌>>=◌}
use kv_storage_service.Text.{Str, strcmp}
use kv_storage_service.Text.Order.{eq_of_cmp}
use kv_storage_service.Text.Token.{print_int}
use kv_storage_service.LinkedList.{strdup}
use kv_storage_service.Address.{
  chain_path, Rtable, Internet, network_connect, connect_to, connect_host, rtable_connect,
  old_address,
}
use kv_storage_service.Address.Parse.{
  IsPart, strtok-host, strtok-last, atoi-print_int, print_int-IsPart, print_int-some, print_int-le,
}

-- The address of a host and a port, as the servers register it.
abbrev pub address_of : Str → ℕ → Str
address_of host port = host ++ 58 ∷ print_int (pos port)

-- The remote table of a connection.
abbrev pub connected : {Sock : Type 0} → Str → ℕ → Sock → Rtable Sock
connected host port sock = record {
  server_address = some host;
  server_port = pos port;
  sockfd = some sock;
}

-- The operating system connects to the host and the port; inet_pton takes four numbers and three
-- points, which are at most 15 characters.
pub record Reaches {Sock : Type 0} (internet : Internet Sock) (host : Str) (port : ℕ) (sock : Sock)
    : Type 0 where
  pub named : 0 < length host
  pub part : IsPart host
  pub dotted : length host ≤ 15
  pub port_pos : 0 < port
  pub port_lt : port < 2 ^ 16
  pub fd : Sock
  pub opened : internet.socket ≡ some fd
  pub place : internet.Place
  pub found : internet.inet_pton host ≡ some place
  pub joined : internet.connect fd place port ≡ some sock

-- The remote table of a node that the operating system connects to, at the address that the node has
-- in ZooKeeper.
abbrev pub IsReached :
    {Sock : Type 0} → Internet Sock → (Str → Option Str) → Str → Rtable Sock → Type 0
IsReached {Sock} internet zoo_get node r =
    (host : Str) × (port : ℕ) × (sock : Sock) × (zoo_get (chain_path ++ node)
      ≡ some (address_of host port))
    × Reaches internet host port sock
    × (r ≡ connected host port sock)

module _ {Sock : Type 0} (internet : Internet Sock) where
  -- An address that the operating system can connect to gives a remote table of that host and port,
  -- where malloc refuses nothing.
  pub rtable_connect_lem :
      (host : Str) (port : ℕ) (sock : Sock) (h : Heap)
      → Reaches internet host port sock
      → IsAmple h
      → rtable_connect internet (some (address_of host port)) h
        ≡ some (some (connected host port sock), grown h 2 0)
  unfolding rtable_connect connect_host connect_to network_connect strdup malloc
  rtable_connect_lem host port sock h r full =
      rw (strtok-host host (print_int (pos port)) r.named r.part) (
        rw (strtok-last (print_int (pos port)) (print_int-some port) (print_int-IsPart port)) (
          rw (atoi-print_int port h (omega (arith, r.port_lt)), ◌>>=◌)
            (let narrowed : port % 2 ^ 16 ≡ port = omega (arith, r.port_lt) in
              ground (arith, full, r.opened, r.found, narrowed, r.joined, r.port_pos))))

-- A string without a colon is no address.
part-ne-address : (s host rest : Str) → IsPart s → s ≢ host ++ 58 ∷ rest
part-ne-address [] [] rest a e = cc
part-ne-address [] (d ∷ host) rest a e = cc
part-ne-address (c ∷ s) [] rest (ne, a) e = ne (head-eq_of_cons-eq e)
part-ne-address (c ∷ s) (d ∷ host) rest (ne, a) e =
    part-ne-address s host rest a (tail-eq_of_cons-eq e)

IsPart-append : (s t : Str) → IsPart s → IsPart t → IsPart (s ++ t)
IsPart-append [] t a b = b
IsPart-append (c ∷ s) t (ne, a) b = (ne, IsPart-append s t a b)

is_zero-strcmp : (a b : Str) → is_zero (strcmp a b) ≡ true → a ≡ b
is_zero-strcmp a b e = eq_of_cmp a b (ground arith)

-- The address that is made of a remote table has no colon, so that it is never that of a node.
pub stale :
    (host new port : Str) (rest : Str)
    → IsPart host
    → IsPart port
    → is_zero (strcmp (new ++ 58 ∷ rest) (host ++ port)) ≡ false
stale host new port rest a b =
    elim (Bool-cases (is_zero (strcmp (new ++ 58 ∷ rest) (host ++ port)))) [
      | inr e ↦ e
      | inl e ↦ absurd (
          part-ne-address (host ++ port) new rest (IsPart-append host port a b)
            (sym (is_zero-strcmp _ _ e)))
    ]

module _ {Sock : Type 0} (r : Rtable Sock) where
  -- With the room that the C standard gives an allocation, no such address can be made.
  pub old_address-strict :
      (port : ℕ) (h : Heap) → r.server_port ≡ pos port → old_address (λ n. n) r h ≡ none
  unfolding old_address strdup malloc
  old_address-strict port h e = ground (arith, e, print_int-some port)

  -- Where an allocation of at most 16 bytes has room for 24, and the host has at most 15, it is the
  -- host and the port with nothing between them.
  pub old_address-roomy :
      (usable : ℕ → ℕ) (host : Str) (port : ℕ) (h : Heap)
      → ((n : ℕ) → n ≤ 16 → 24 ≤ usable n)
      → length host ≤ 15
      → r.server_address ≡ some host
      → r.server_port ≡ pos port
      → port < 2 ^ 16
      → IsAmple h
      → old_address usable r h ≡ some (host ++ print_int (pos port), grown h 1 0)
  unfolding old_address strdup malloc
  old_address-roomy usable host port h roomy dotted e f lt full =
      ground (arith, e, f, full, roomy (length host + 1) (omega arith), print_int-le port lt)
