-- ===== src/Table.antt =====
-- source/table.c: the hash table, an array of lists. The array and the hash function are `lists`
-- and `hash_code` in include/table-private.h, and `arrayLista` and `hashValue` in source/table.c.
pub mod Hash
pub mod View
pub mod Create
pub mod Steps
pub mod Outcome
pub mod Put
pub mod Lookup
pub mod Remove
pub mod Walk
pub mod Keys
pub mod Listing
pub mod Canonical
use kv_storage_service.Common.{
  ℕ, zero, suc, ◌+◌, ◌*◌, ℤ, pos, negsuc, ◌≡◌, Bool, true, false, Option, none, some, List, [], ◌∷◌,
  ◌++◌, not, if◌then◌else◌, minus_one, is_neg, is_zero, pos_part, rem_ℕ, get_elem?, set, replicate,
  length, ltb, leb,
}
use kv_storage_service.Machine.{
  M, pure, fault, ◌>>=◌, ◌>>◌, malloc, free, deref, is_null, add_int, to_int, le_zero,
}
use kv_storage_service.Text.{Str, to_char}
use kv_storage_service.Block.{Block, block_duplicate}
use kv_storage_service.Entry.{Entry, entry_create}
use kv_storage_service.LinkedList.{
  LinkedList, KeyArray, list_create, list_add, list_size, list_get, list_get_keys, list_free_keys,
  list_remove, list_destroy, strdup,
}

-- struct table_t
pub record Table : Type 0 where
  pub lists : List (Option LinkedList)
  pub size : ℤ

unfoldable pub table_create : ℤ → M (Option Table)
table_create n = if le_zero n then pure none else do
  table ← malloc
  if not table then pure none else do
    lists ← malloc
    if not lists
        then pure none
        else pure (some (record { lists = replicate (pos_part n) none; size = n }))

-- The loop of `hashValue`: the sum of the characters, as signed chars.
unfoldable pub sum_chars : ℤ → Str → M ℤ
sum_chars soma [] = pure soma
sum_chars soma (c ∷ key) = do soma' ← add_int soma (to_char c); sum_chars soma' key

-- `soma % size` for a size that is positive
unfoldable pub remainder : ℤ → ℤ → M ℤ
remainder soma (pos zero) = fault
remainder soma (pos (suc n)) = pure (rem_ℕ soma (suc n))
remainder soma (negsuc n) = fault

unfoldable pub hash_value : Str → ℤ → M ℤ
hash_value key size = do soma ← sum_chars (pos 0) key; remainder soma size

-- `lists[i]`, read and written: undefined outside of the array
unfoldable pub read_slot : List (Option LinkedList) → ℤ → M (Option LinkedList)
read_slot lists (pos i) = deref (get_elem? lists i)
read_slot lists (negsuc i) = fault

unfoldable pub write_slot :
    List (Option LinkedList) → ℤ → Option LinkedList → M (List (Option LinkedList))
write_slot lists (pos i) l = if ltb i (length lists) then pure (set lists i l) else fault
write_slot lists (negsuc i) l = fault

-- `list_add` into a list, which then stands in the slot. The result of `list_add` is not looked at.
unfoldable pub fill : Table → ℤ → Option LinkedList → Entry → M (ℤ × Option Table)
fill t hash lista entrada = do
  (_, lista') ← list_add lista (some entrada)
  lists ← write_slot t.lists hash lista'
  pure (pos 0, some (record t { lists = lists }))

-- The end of `table_put`: the entry goes into the list of its slot, which may have to be made.
unfoldable pub put_entry : Table → ℤ → Entry → M (ℤ × Option Table)
put_entry t hash entrada = do
  slot ← read_slot t.lists hash
  if not (is_null slot) then fill t hash slot entrada else do
    lista ← list_create
    if is_null lista then pure (minus_one, some t) else fill t hash lista entrada

-- the result, and the table as it is left; on an error the copies made so far are not freed
unfoldable pub table_put : Option Table → Option Str → Option Block → M (ℤ × Option Table)
table_put none key value = pure (minus_one, none)
table_put (some t) none value = pure (minus_one, some t)
table_put (some t) (some key) none = pure (minus_one, some t)
table_put (some t) (some key) (some value) = do
  copia_key ← malloc
  if not copia_key then pure (minus_one, some t) else do
    copia_value ← block_duplicate (some value)
    if is_null copia_value then pure (minus_one, some t) else do
      created ← entry_create (some key) copia_value
      if is_null created
          then pure (minus_one, some t)
          else do entrada ← deref created; hash ← hash_value key t.size; put_entry t hash entrada

-- the copy of the entry that `list_get` found
unfoldable pub copy_found : Option Entry → M (Option Block)
copy_found none = pure none
copy_found (some entrada) = block_duplicate entrada.value

unfoldable pub table_get : Option Table → Option Str → M (Option Block)
table_get none key = pure none
table_get (some t) none = pure none
table_get (some t) (some key) = do
  hash ← hash_value key t.size
  slot ← read_slot t.lists hash
  if is_null slot then pure none else do entrada ← list_get slot (some key); copy_found entrada

-- The loop of `table_size` over `n` slots, which must be there.
unfoldable pub sum_sizes : ℕ → List (Option LinkedList) → ℤ → M ℤ
sum_sizes zero lists total = pure total
sum_sizes (suc n) [] total = fault
sum_sizes (suc n) (none ∷ lists) total = sum_sizes n lists total
sum_sizes (suc n) (some l ∷ lists) total = do
  total' ← add_int total (list_size (some l))
  sum_sizes n lists total'

unfoldable pub table_size : Option Table → M ℤ
table_size none = pure minus_one
table_size (some t) = sum_sizes (pos_part t.size) t.lists (pos 0)

-- The inner loop of `table_get_keys`: `n` keys of an array are copied into one with `room` places.
unfoldable pub copy_array : ℕ → ℕ → KeyArray → M (KeyArray × ℕ)
copy_array zero room keys = pure ([], room)
copy_array (suc n) zero keys = fault
copy_array (suc n) (suc room) [] = fault
copy_array (suc n) (suc room) (k ∷ keys) = do
  copy ← strdup k
  (copies, left) ← copy_array n room keys
  pure (copy ∷ copies, left)

abbrev pub array_or_empty : Option KeyArray → KeyArray
array_or_empty none = []
array_or_empty (some keys) = keys

-- The outer loop, over `n` slots, and the NULL at the end.
unfoldable pub collect : ℕ → ℕ → List (Option LinkedList) → M KeyArray
collect zero zero lists = fault
collect zero (suc room) lists = pure (none ∷ [])
collect (suc n) room [] = fault
collect (suc n) room (none ∷ lists) = collect n room lists
collect (suc n) room (some l ∷ lists) = do
  keys_to_be_copied ← list_get_keys (some l)
  (copies, left) ←
      copy_array (pos_part (list_size (some l))) room (array_or_empty keys_to_be_copied)
  list_free_keys keys_to_be_copied
  rest ← collect n left lists
  pure (copies ++ rest)

unfoldable pub table_get_keys : Option Table → M (Option KeyArray)
table_get_keys none = pure none
table_get_keys (some t) = do
  total ← table_size (some t)
  room ← add_int total (pos 1)
  keys ← malloc
  if not keys
      then pure none
      else do filled ← collect (pos_part t.size) (pos_part room) t.lists; pure (some filled)

unfoldable pub table_free_keys : Option KeyArray → M ℤ
table_free_keys keys = list_free_keys keys

unfoldable pub table_remove : Option Table → Option Str → M (ℤ × Option Table)
table_remove none key = pure (minus_one, none)
table_remove (some t) none = pure (minus_one, some t)
table_remove (some t) (some key) = do
  hash ← hash_value key t.size
  slot ← read_slot t.lists hash
  if is_null slot then pure (minus_one, some t) else do
    (result, l) ← list_remove slot (some key)
    lists ← write_slot t.lists hash l
    pure (result, some (record t { lists = lists }))

-- The loop of `table_destroy` over `n` slots.
unfoldable pub destroy_lists : ℕ → List (Option LinkedList) → M (Unit {0})
destroy_lists zero lists = pure tt
destroy_lists (suc n) [] = fault
destroy_lists (suc n) (none ∷ lists) = destroy_lists n lists
destroy_lists (suc n) (some l ∷ lists) = do list_destroy (some l); destroy_lists n lists

unfoldable pub table_destroy : Option Table → M ℤ
table_destroy none = pure minus_one
table_destroy (some t) = do
  destroy_lists (pos_part t.size) t.lists
  free (some t.lists)
  free (some t)
  pure (pos 0)
