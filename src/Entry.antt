-- ===== src/Entry.antt =====
-- source/entry.c: a key with its block.
use kv_storage_service.Common.{
  ℤ, pos, negsuc, Option, none, some, ◌||◌, not, if◌then◌else◌, minus_one,
}
use kv_storage_service.Machine.{M, pure, ◌>>=◌, ◌>>◌, malloc, free, deref, is_null}
use kv_storage_service.Text.{Str, strcmp}
use kv_storage_service.Block.{Block, block_duplicate, block_destroy}

-- struct entry_t
pub record Entry : Type 0 where
  pub key : Option Str
  pub value : Option Block

unfoldable pub entry_create : Option Str → Option Block → M (Option Entry)
entry_create key value = if is_null key || is_null value then pure none else do
  entrada ← malloc
  if entrada then pure (some (record { key = key; value = value })) else pure none

unfoldable pub entry_compare : Option Entry → Option Entry → M ℤ
entry_compare none e2 = pure (negsuc 1)
entry_compare (some e1) none = pure (negsuc 1)
entry_compare (some e1) (some e2) = do k1 ← deref e1.key; k2 ← deref e2.key; pure (strcmp k1 k2)

-- On the later errors the parts already allocated stay allocated, as in the source.
unfoldable pub entry_duplicate : Option Entry → M (Option Entry)
entry_duplicate none = pure none
entry_duplicate (some e) = if is_null e.key || is_null e.value then pure none else do
  nova_entrada ← malloc
  if not nova_entrada then pure none else do
    space ← malloc
    if not space then pure none else do
      key ← deref e.key
      value ← block_duplicate e.value
      if is_null value then pure none else pure (some (record { key = some key; value = value }))

-- the entry as it is left, with the result
unfoldable pub entry_replace : Option Entry → Option Str → Option Block → M (ℤ × Option Entry)
entry_replace none new_key new_value = pure (minus_one, none)
entry_replace (some e) new_key new_value =
    if is_null new_key || is_null new_value then pure (minus_one, some e) else do
      free e.key
      block_destroy e.value
      pure (pos 0, some (record { key = new_key; value = new_value }))

unfoldable pub entry_destroy : Option Entry → M ℤ
entry_destroy none = pure minus_one
entry_destroy (some e) =
    if is_null e.key || is_null e.value
    then pure minus_one
    else do free e.key; block_destroy e.value; free (some e); pure (pos 0)
