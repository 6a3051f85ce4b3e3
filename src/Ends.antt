-- ===== src/Ends.antt =====
-- `set_head_tail` of source/client_hashtable.c: the client connects to the two ends of the chain.
-- `zoo_get` is ZooKeeper's, `usable` is the room of an allocation, and the connections are made over
-- the section's parameters.
pub mod Connect
use kv_storage_service.Common.{
  ℕ, Option, none, some, List, Bool, not, ◌&&◌, ℤ, pos, minus_one, is_zero, eq_int, ◌||◌,
  if◌then◌else◌,
}
use kv_storage_service.Machine.{malloc, fault, M, pure, ◌>>=◌, ◌>>◌, free, deref, is_null}
use kv_storage_service.Text.{Str, strcmp}
use kv_storage_service.LinkedList.{strdup}
use kv_storage_service.Address.{
  Rtable, Internet, rtable_connect, rtable_disconnect, old_address, get_node_data,
}
use kv_storage_service.Members.{choose_ends}

module _ {Sock : Type 0} (internet : Internet Sock) (zoo_get : Str → Option Str) where
  unfoldable pub connect_node : Str → M (Option (Rtable Sock))
  connect_node node = do
    data_of_node ← get_node_data zoo_get node
    table ← rtable_connect internet data_of_node
    if is_null table then pure none else do free data_of_node; pure table

  module _ (usable : ℕ → ℕ) where
    unfoldable pub alt_check : Option (Rtable Sock) → Str → M ℤ
    alt_check none node = pure (pos 1)
    alt_check (some r) node = do
      old_data ← old_address usable r
      novo_data ← get_node_data zoo_get node
      novo ← deref novo_data
      if is_zero (strcmp novo old_data)
          then (do free (some old_data); free novo_data; pure (pos 0))
          else do
            free (some old_data)
            free novo_data
            rtable_disconnect internet (some r)
            pure (pos 1)

    -- The step of `set_head_tail` for one of the two ends: it is compared with `other`, and where
    -- they differ it is connected to `node`.
    unfoldable pub renew : Option (Rtable Sock) → Str → Str → M (Option (Rtable Sock))
    renew rtable other node = do
      changed ← alt_check rtable other
      if eq_int changed (pos 1)
          then (do
            path ← strdup (some node)
            name ← deref path
            connected ← connect_node name
            free path
            pure connected)
          else pure rtable

    -- The result, with head and tail as they are left; the list of the nodes must not be empty.
    unfoldable pub set_head_tail :
        List Str
        → Option (Rtable Sock)
        → Option (Rtable Sock)
        → M (ℤ × Option (Rtable Sock) × Option (Rtable Sock))
    set_head_tail children head tail = do
      (greatest, least) ← deref (choose_ends children)
      head' ← renew head greatest least
      tail' ← renew tail least greatest
      pure ((if is_null head' || is_null tail' then minus_one else pos 0), head', tail')

    -- A call of `child_watcher`, by whether the state is ZOO_CONNECTED_STATE and the type is
    -- ZOO_CHILD_EVENT, and by the list that `zoo_wget_children` gives, none where it fails and leaves
    -- the list as malloc made it; with head and tail as they are left.
    unfoldable pub child_watcher :
        Bool
        → Bool
        → Option (List Str)
        → Option (Rtable Sock)
        → Option (Rtable Sock)
        → M (Option (Rtable Sock) × Option (Rtable Sock))
    child_watcher connected child_event listed head tail = do
      granted ← malloc
      if connected && child_event
          then (if not granted then fault else do
            children ← deref listed
            (_, head', tail') ← set_head_tail children head tail
            free (some tt)
            pure (head', tail'))
          else do free (if granted then some tt else none); pure (head, tail)
