-- ===== src/Examples/BlockFile.antt =====
-- A block file of three blocks, of which the second is free.
use simple_cache.Base.{◌-◌, ◌^◌, ◌≡◌, refl, true, some, [], ◌∷◌, arith}
use simple_cache.Blocks.{Blocks, block_free}
use simple_cache.Blocks.Ownership.{Owns, block_free_lem}

abbrev pub small : Blocks
small = record { free_blocks = 1 ∷ []; blocks_exist = 3; blocks_free = 1; file_length = 12288 }

pub small-Owns : Owns small (0 ∷ 2 ∷ [])
small-Owns = record {
  free_distinct = (refl, tt);
  used_distinct = (refl, (refl, tt));
  apart = λ n. ground arith;
  cover = λ n. ground arith;
  counted = refl;
  few = omega arith;
  total = refl;
}

block_free_lem_example : (b' : Blocks) × (block_free true 2 small ≡ some b') × Owns b' (0 ∷ [])
block_free_lem_example = block_free_lem true small (0 ∷ 2 ∷ []) 2 small-Owns refl

abbrev full_file : Blocks
full_file = record { free_blocks = []; blocks_exist = 3; blocks_free = 0; file_length = 12288 }

abbrev grown_file : Blocks
grown_file = record { free_blocks = []; blocks_exist = 4; blocks_free = 0; file_length = 16384 }

-- four gigabytes less one block
abbrev big_file : Blocks
big_file = record {
  free_blocks = [];
  blocks_exist = 2 ^ 20 - 1;
  blocks_free = 0;
  file_length = 4294963200;
}
