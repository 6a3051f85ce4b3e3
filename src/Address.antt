-- ===== src/Address.antt =====
-- The connection of a remote table: rtable_connect and rtable_disconnect of source/client_stub.c,
-- network_connect and network_close of source/client_network.c, get_node_data of
-- source/zoo_helper.c, and the address that the programs make of a remote table to compare it.
pub mod Parse
pub mod Connect
use kv_storage_service.Common.{
  ℕ, ◌+◌, ◌%◌, ◌^◌, ℤ, pos, minus_one, neg_part, pos_part, Option, none, some, List, [], ◌∷◌, ◌++◌,
  Bool, not, ltb, leb, length, eq_int, if◌then◌else◌,
}
use kv_storage_service.Machine.{M, pure, fault, ◌>>=◌, ◌>>◌, malloc, free, deref, is_null, le_zero}
use kv_storage_service.Text.{Str}
use kv_storage_service.Text.Token.{strtok, atoi, print_int}
use kv_storage_service.LinkedList.{strdup}

-- struct rtable_t, with the socket itself for its descriptor
pub record Rtable (Sock : Type 0) : Type 0 where
  pub server_address : Option Str
  pub server_port : ℤ
  pub sockfd : Option Sock

-- ":"
abbrev pub colon : Str
colon = 58 ∷ []

-- What the operating system answers to socket, inet_pton, connect and close.
pub record Internet (Sock : Type 0) : Type 1 where
  pub Place : Type 0
  pub socket : Option Sock
  pub inet_pton : Str → Option Place
  pub connect : Sock → Place → ℕ → Option Sock
  pub close : Sock → Bool

module _ {Sock : Type 0} (internet : Internet Sock) where
  open internet use {socket, inet_pton, connect, close}

  -- The result, and the remote table as it is left; the port goes into 16 bits.
  unfoldable pub network_connect : Option (Rtable Sock) → M (ℤ × Option (Rtable Sock))
  network_connect none = pure (minus_one, none)
  network_connect (some r) = elim socket [
    | none ↦ pure (minus_one, some r)
    | some fd ↦ do
      address ← deref r.server_address
      pure (elim (inet_pton address) [
        | none ↦ (minus_one, some r)
        | some place ↦ elim (connect fd place (pos_part r.server_port % 2 ^ 16)) [
          | none ↦ (minus_one, some r)
          | some fd' ↦ (pos 0, some (record r { sockfd = some fd' }))
        ]
      ])
  ]

  unfoldable pub network_close : Option (Rtable Sock) → M ℤ
  network_close none = pure minus_one
  network_close (some r) = do fd ← deref r.sockfd; pure (if close fd then pos 0 else minus_one)

  -- The end of `rtable_connect`, for the host and the port that the address is split into.
  unfoldable pub connect_to : Str → ℤ → M (Option (Rtable Sock))
  connect_to host port = do
    tabela ← malloc
    if not tabela then pure none else do
      address ← strdup (some host)
      (result, tabela') ←
          network_connect
            (some (record { server_address = address; server_port = port; sockfd = none }))
      if eq_int result minus_one then (do free address; free tabela'; pure none) else pure tabela'

  unfoldable pub connect_host : Option Str → Option Str → M (Option (Rtable Sock))
  connect_host none port = pure none
  connect_host (some host) none = pure none
  connect_host (some host) (some port) = do
    number ← atoi port
    if le_zero number then pure none else connect_to host number

  unfoldable pub rtable_connect : Option Str → M (Option (Rtable Sock))
  rtable_connect none = pure none
  rtable_connect (some address_port) =
      let (host, rest) = strtok colon address_port in connect_host host (strtok colon rest).0

  unfoldable pub rtable_disconnect : Option (Rtable Sock) → M ℤ
  rtable_disconnect none = pure minus_one
  rtable_disconnect (some r) = do
    result ← network_close (some r)
    if eq_int result minus_one
        then pure minus_one
        else do free r.server_address; free (some r); pure (pos 0)

-- `sprintf(porto, "%d", server_port)` into 8 characters, and `strcat(strdup(server_address), porto)`.
-- The allocation of a string of n bytes has `usable n` bytes; the C standard gives it n.
unfoldable pub old_address : {Sock : Type 0} → (ℕ → ℕ) → Rtable Sock → M Str
old_address usable r = do
  let porto = print_int r.server_port
  copy ← strdup r.server_address
  address ← deref copy
  if ltb 7 (length porto)
      then fault
      else if leb (length address + length porto + 1) (usable (length address + 1))
      then pure (address ++ porto)
      else fault

-- "/chain/"
abbrev pub chain_path : Str
chain_path = 47 ∷ 99 ∷ 104 ∷ 97 ∷ 105 ∷ 110 ∷ 47 ∷ []

-- `zoo_get` is ZooKeeper's, and gives the string in a node; the two buffers, which hold a path and a
-- node of less than 1 MiB, are not tested before they are written to.
unfoldable pub get_node_data : (Str → Option Str) → Str → M (Option Str)
get_node_data zoo_get node = do
  data_space ← malloc
  path_space ← malloc
  if not path_space then fault else elim (zoo_get (chain_path ++ node)) [
    | none ↦ pure none
    | some found ↦
        if not data_space then fault else do free (some (chain_path ++ node)); pure (some found)
  ]
