-- ===== src/Blocks.antt =====
-- The block file's allocator in src/core/db.cpp, with the fields of src/core/db.h that it uses. A
-- result `none` is an assertion that fails in a build with DEBUG_BUILD. Whether `ftruncate` succeeds
-- is an argument.
pub mod Ownership
pub mod Length
use simple_cache.Base.{
  ℕ, ◌+◌, ◌-◌, ◌*◌, ◌%◌, ◌^◌, Bool, true, false, not, ◌&&◌, Option, none, some, List, [], ◌∷◌, ltb,
  leb, ◌==◌, if◌then◌else◌, ℤ, pos, negsuc, ◌>>=◌, ◌>>◌, assert, mem,
}

abbrev pub block_length : ℕ
block_length = 4096

-- The part of `struct db_details` that keeps account of blocks, and the length of the file.
pub record Blocks : Type 0 where
  pub free_blocks : List ℕ
  pub blocks_exist : ℕ
  pub blocks_free : ℕ
  pub file_length : ℕ

-- `db_block_size`: the product is one of `uint32_t`s.
unfoldable pub block_size : Bool → Blocks → Blocks
block_size ok b =
    if ok then record b { file_length = (b.blocks_exist * block_length) % 2 ^ 32 } else b

-- The check of DEBUG_BUILD that no block was freed twice before.
abbrev pub distinct : List ℕ → Bool
distinct [] = true
distinct (n ∷ ns) = not (mem n ns) && distinct ns

-- `db_block_free`
unfoldable pub block_free : Bool → ℕ → Blocks → Option Blocks
unfolding block_size
block_free ok block b = do
  assert (leb (block + 1) b.blocks_exist)
  if (block + 1 == b.blocks_exist) && ltb 256 b.blocks_free
      then some (block_size ok (record b { blocks_exist = b.blocks_exist - 1 }))
      else assert (distinct b.free_blocks)
        >> some (record b {
          free_blocks = block ∷ b.free_blocks;
          blocks_free = (b.blocks_free + 1) % 2 ^ 32;
        })

-- `db_block_allocate_new`, which returns -1 if there are too many blocks
unfoldable pub block_allocate_new : Bool → Blocks → Option (ℤ × Blocks)
unfolding block_size
block_allocate_new ok b = elim b.free_blocks [
  | n ∷ rest ↦
      some (
        pos n,
        record b { free_blocks = rest; blocks_free = (b.blocks_free + 2 ^ 32 - 1) % 2 ^ 32 },
      )
  | [] ↦
      if leb 2147483647 b.blocks_exist
      then some (negsuc 0, b)
      else assert (b.blocks_free == 0)
        >> some (pos b.blocks_exist, block_size ok (record b { blocks_exist = b.blocks_exist + 1 }))
]
