-- ===== src/LinkedList.antt =====
-- source/list.c: the sorted linked list of entries, and its arrays of keys.
pub mod Items
pub mod Loops
pub mod Add
pub mod Get
pub mod Remove
pub mod Keys
pub mod Refine
pub mod Canonical
use kv_storage_service.Common.{
  ℕ, zero, suc, ◌+◌, ℤ, pos, Bool, true, false, Option, none, some, List, [], ◌∷◌, ◌++◌, ◌&&◌, not,
  if◌then◌else◌, minus_one, is_neg, is_zero, pos_part,
}
use kv_storage_service.Machine.{M, pure, fault, ◌>>=◌, ◌>>◌, malloc, free, deref, is_null, add_int}
use kv_storage_service.Text.{Str, strcmp}
use kv_storage_service.Entry.{Entry, entry_compare, entry_destroy}

-- struct list_t, with its nodes in order from the head; `list_add` alone makes nodes, and never
-- one whose entry is NULL
pub record LinkedList : Type 0 where
  pub size : ℤ
  pub nodes : List Entry

-- an array of char* that ends with NULL, NULL included
abbrev pub KeyArray : Type 0
KeyArray = List (Option Str)

unfoldable pub list_create : M (Option LinkedList)
list_create = do
  l ← malloc
  if l then pure (some (record { size = pos 0; nodes = [] })) else pure none

-- The first loop of `list_add`: the nodes up to `prev`, and those from `cur` on.
unfoldable pub seek : Entry → List Entry → M (List Entry × List Entry)
seek entry [] = pure ([], [])
seek entry (cur ∷ next) = do
  order ← entry_compare (some cur) (some entry)
  if not (is_neg order)
      then pure ([], cur ∷ next)
      else do (passed, rest) ← seek entry next; pure (cur ∷ passed, rest)

-- The rest of `list_add`, where no node has the key: a new node before `cur`.
unfoldable pub link : LinkedList → Entry → List Entry → List Entry → M (ℤ × LinkedList)
link l entry passed rest = do
  new ← malloc
  if not new then pure (minus_one, l) else do
    size ← add_int l.size (pos 1)
    pure (pos 0, record { size = size; nodes = passed ++ entry ∷ rest })

-- The second half of `list_add`, by the node at `cur`.
unfoldable pub place : LinkedList → Entry → List Entry → List Entry → M (ℤ × LinkedList)
place l entry passed [] = link l entry passed []
place l entry passed (cur ∷ next) = do
  order ← entry_compare (some cur) (some entry)
  if not (is_zero order)
      then link l entry passed (cur ∷ next)
      else do entry_destroy (some cur); pure (pos 1, record l { nodes = passed ++ entry ∷ next })

-- the result, and the list as it is left
unfoldable pub list_add : Option LinkedList → Option Entry → M (ℤ × Option LinkedList)
list_add none entry = pure (minus_one, none)
list_add (some l) none = pure (minus_one, some l)
list_add (some l) (some entry) = do
  (passed, rest) ← seek entry l.nodes
  (result, l') ← place l entry passed rest
  pure (result, some l')

unfoldable pub list_size : Option LinkedList → ℤ
list_size none = minus_one
list_size (some l) = l.size

unfoldable pub find_entry : Str → List Entry → M (Option Entry)
find_entry key [] = pure none
find_entry key (cur ∷ next) = do
  k ← deref cur.key
  let order = strcmp k key
  if is_zero order
      then pure (some cur)
      else if not (is_neg order)
      then pure none
      else find_entry key next

unfoldable pub list_get : Option LinkedList → Option Str → M (Option Entry)
list_get none key = pure none
list_get (some l) none = pure none
list_get (some l) (some key) = find_entry key l.nodes

-- `strdup(s)`, which needs a string
unfoldable pub strdup : Option Str → M (Option Str)
strdup s = do text ← deref s; space ← malloc; if space then pure (some text) else pure none

-- The loop of `list_get_keys` over an array with `room` places left. A failed `strdup` is not
-- looked at: its NULL is stored.
unfoldable pub copy_keys : ℕ → List Entry → M KeyArray
copy_keys zero nodes = fault
copy_keys (suc room) [] = pure (none ∷ [])
copy_keys (suc room) (cur ∷ next) = do
  key ← strdup cur.key
  keys ← copy_keys room next
  pure (key ∷ keys)

-- `list_get_keys` on a list that exists, by its head.
unfoldable pub keys_of : LinkedList → List Entry → M (Option KeyArray)
keys_of l [] = pure none
keys_of l (n ∷ ns) = do
  room ← add_int l.size (pos 1)
  keys ← malloc
  if not keys then pure none else do filled ← copy_keys (pos_part room) (n ∷ ns); pure (some filled)

unfoldable pub list_get_keys : Option LinkedList → M (Option KeyArray)
list_get_keys none = pure none
list_get_keys (some l) = keys_of l l.nodes

-- The loop of `list_free_keys`; past the end of the array it reads what is not there.
unfoldable pub free_each : KeyArray → M (Unit {0})
free_each [] = fault
free_each (none ∷ keys) = pure tt
free_each (some k ∷ keys) = do free (some k); free_each keys

unfoldable pub list_free_keys : Option KeyArray → M ℤ
list_free_keys none = pure minus_one
list_free_keys (some keys) = do free_each keys; free (some keys); pure (pos 0)

-- The loop of `list_remove`: the nodes up to `prev`, the node with the key, and those after it.
unfoldable pub seek_key : Str → List Entry → M (Option (List Entry × Entry × List Entry))
seek_key key [] = pure none
seek_key key (cur ∷ next) = do
  k ← deref cur.key
  let order = strcmp k key
  if is_zero order
      then pure (some ([], cur, next))
      else if not (is_neg order)
      then pure none
      else do
        found ← seek_key key next
        pure (elim found [
          | none ↦ none
          | some (passed, node, rest) ↦ some (cur ∷ passed, node, rest)
        ])

unfoldable pub unlink :
    LinkedList → Option (List Entry × Entry × List Entry) → M (ℤ × Option LinkedList)
unlink l none = pure (pos 1, some l)
unlink l (some (passed, node, rest)) = do
  entry_destroy (some node)
  free (some node)
  size ← add_int l.size minus_one
  pure (pos 0, some (record { size = size; nodes = passed ++ rest }))

unfoldable pub list_remove : Option LinkedList → Option Str → M (ℤ × Option LinkedList)
list_remove none key = pure (minus_one, none)
list_remove (some l) none = pure (minus_one, some l)
list_remove (some l) (some key) = do found ← seek_key key l.nodes; unlink l found

unfoldable pub destroy_nodes : List Entry → M (Unit {0})
destroy_nodes [] = pure tt
destroy_nodes (node ∷ next) = do entry_destroy (some node); free (some node); destroy_nodes next

unfoldable pub list_destroy : Option LinkedList → M ℤ
list_destroy none = pure minus_one
list_destroy (some l) = do destroy_nodes l.nodes; free (some l); pure (pos 0)
