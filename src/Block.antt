-- ===== src/Block.antt =====
-- source/block.c: a data block, its size and its bytes.
use kv_storage_service.Common.{
  ℤ, pos, pos_part, Option, none, some, List, ℕ, ◌||◌, not, if◌then◌else◌, minus_one,
}
use kv_storage_service.Machine.{M, pure, ◌>>=◌, ◌>>◌, malloc, free, deref, memcpy, le_zero, is_null}

-- The contents of a buffer, byte by byte.
abbrev pub Bytes : Type 0
Bytes = List ℕ

-- struct block_t
pub record Block : Type 0 where
  pub datasize : ℤ
  pub buffer : Option Bytes

unfoldable pub block_create : ℤ → Option Bytes → M (Option Block)
block_create size buffer = if le_zero size || is_null buffer then pure none else do
  bloco ← malloc
  if bloco then pure (some (record { datasize = size; buffer = buffer })) else pure none

unfoldable pub block_duplicate : Option Block → M (Option Block)
block_duplicate none = pure none
block_duplicate (some b) = if le_zero b.datasize || is_null b.buffer then pure none else do
  novo_bloco ← malloc
  if not novo_bloco then pure none else do
    space ← malloc
    if not space then (do free (some b); pure none) else do
      src ← deref b.buffer
      copy ← memcpy (pos_part b.datasize) src
      pure (some (record { datasize = b.datasize; buffer = some copy }))

-- the block as it is left, with the result
unfoldable pub block_replace : Option Block → ℤ → Option Bytes → M (ℤ × Option Block)
block_replace none new_size new_data = pure (minus_one, none)
block_replace (some b) new_size new_data =
    if le_zero new_size || is_null new_data
    then pure (minus_one, some b)
    else do free b.buffer; pure (pos 0, some (record { datasize = new_size; buffer = new_data }))

unfoldable pub block_destroy : Option Block → M ℤ
block_destroy none = pure minus_one
block_destroy (some b) = do free b.buffer; free (some b); pure (pos 0)
