-- ===== src/Blocks/Length.antt =====
-- The length that `db_block_size` gives the block file.
use simple_cache.Base.{
  ℕ, ◌+◌, ◌*◌, ◌^◌, ◌≤◌, ◌<◌, ◌≡◌, refl, arith, Bool, true, some, [], ◌∷◌, List, pos,
}
use simple_cache.Blocks.{Blocks, block_length, block_size, block_free, block_allocate_new}

-- The file holds every block.
abbrev pub IsHeld : Blocks → Type 0
IsHeld b = b.blocks_exist * block_length ≤ b.file_length

allocate-cases :
    (b b' : Blocks) (n : ℕ) (free : List ℕ)
    → b.free_blocks ≡ free
    → b.blocks_exist + 1 < 2 ^ 20
    → IsHeld b
    → block_allocate_new true b ≡ some (pos n, b')
    → IsHeld b'
unfolding block_allocate_new
allocate-cases b b' n [] e h v r = ground arith
allocate-cases b b' n (m ∷ rest) e h v r = ground arith

-- With fewer than 2^20 blocks the file holds every block after an allocation.
pub block_allocate_new-IsHeld :
    (b b' : Blocks) (n : ℕ)
    → b.blocks_exist + 1 < 2 ^ 20
    → IsHeld b
    → block_allocate_new true b ≡ some (pos n, b')
    → IsHeld b'
block_allocate_new-IsHeld b b' n = allocate-cases b b' n b.free_blocks refl

-- Giving back a block too, which may shorten the file.
pub block_free-IsHeld :
    (ok : Bool) (b b' : Blocks) (n : ℕ)
    → b.blocks_exist < 2 ^ 20
    → IsHeld b
    → block_free ok n b ≡ some b'
    → IsHeld b'
unfolding block_free
block_free-IsHeld ok b b' n h v r = ground arith

-- From 2^20 blocks on, where no free block is left, the product wraps: the file ends before the new
-- block begins, and what lay behind that end is cut off.
pub block_allocate_new_cuts :
    (b : Blocks)
    → b.free_blocks ≡ []
    → b.blocks_free ≡ 0
    → 2 ^ 20 ≤ b.blocks_exist + 1
    → b.blocks_exist < 2147483647
    → (b' : Blocks) × (block_allocate_new true b ≡ some (pos b.blocks_exist, b'))
      × (b'.file_length ≤ b.blocks_exist * block_length)
unfolding block_allocate_new
block_allocate_new_cuts b e f h k =
    (block_size true (record b { blocks_exist = b.blocks_exist + 1 }), ground arith, omega arith)
