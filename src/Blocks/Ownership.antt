-- ===== src/Blocks/Ownership.antt =====
-- Who has which block of the file.
use simple_cache.Base.{
  ℕ, suc, ◌<◌, ◌+◌, ◌-◌, ◌%◌, ◌^◌, ◌≤◌, ◌≡◌, refl, ap, Bool, true, false, not, ◌&&◌, ◌||◌, some,
  List, [], ◌∷◌, ltb, leb, ◌==◌, if◌then◌else◌, pos, negsuc, mem, Distinct, length, arith, ◌⊎◌, inl,
  inr, Bool-cases,
}
use simple_cache.Blocks.{Blocks, block_size, distinct, block_free, block_allocate_new}

-- The list less the block `n`.
abbrev pub without : ℕ → List ℕ → List ℕ
without n [] = []
without n (m ∷ ms) = if m == n then without n ms else m ∷ without n ms

mem-without : (n m : ℕ) (ms : List ℕ) → mem m (without n ms) ≡ (mem m ms && not (m == n))
mem-without n m [] = refl
mem-without n m (k ∷ ms) = ground (arith, mem-without n m ms)

without-Distinct : (n : ℕ) (ms : List ℕ) → Distinct ms → Distinct (without n ms)
without-Distinct n [] d = tt
without-Distinct n (k ∷ ms) d = ground (arith, mem-without n k ms, without-Distinct n ms d.1)

distinct-true : (ns : List ℕ) → Distinct ns → distinct ns ≡ true
distinct-true [] d = refl
distinct-true (n ∷ ns) d = ground (arith, distinct-true ns d.1)

-- Each block of the file is either free or one of `used`, and the counters agree.
pub record Owns (b : Blocks) (used : List ℕ) : Type 0 where
  pub free_distinct : Distinct b.free_blocks
  pub used_distinct : Distinct used
  pub apart : (n : ℕ) → (mem n b.free_blocks && mem n used) ≡ false
  pub cover : (n : ℕ) → (mem n b.free_blocks || mem n used) ≡ ltb n b.blocks_exist
  pub counted : b.blocks_free ≡ length b.free_blocks
  pub few : b.blocks_exist ≤ 2147483647
  pub total : length b.free_blocks + length used ≡ b.blocks_exist

length-without_none : (n : ℕ) (ms : List ℕ) → mem n ms ≡ false → length (without n ms) ≡ length ms
length-without_none n [] m = refl
length-without_none n (k ∷ ms) m = ground (arith, length-without_none n ms)

length-without :
    (n : ℕ) (ms : List ℕ) → Distinct ms → mem n ms ≡ true → length (without n ms) + 1 ≡ length ms
length-without n [] d m = cc
length-without n (k ∷ ms) d m = ground (arith, length-without n ms d.1, length-without_none n ms)

-- Handing out the first free block.
allocate-free :
    (b : Blocks) (used : List ℕ) (n : ℕ) (rest : List ℕ)
    → Owns b used
    → b.free_blocks ≡ n ∷ rest
    → Owns
        (record b { free_blocks = rest; blocks_free = (b.blocks_free + 2 ^ 32 - 1) % 2 ^ 32 })
        (n ∷ used)
      × (mem n used ≡ false)
allocate-free b used n rest v e = (
  record {
    free_distinct = fd.1;
    used_distinct = (unused, v.used_distinct);
    apart = λ m. ground (arith, fd, ap_all m);
    cover = λ m. ground (arith, cov_all m);
    counted = omega (arith, len, v.counted, v.total, v.few);
    few = v.few;
    total = omega (arith, len, v.total);
  },
  unused,
)
  where
    fd : Distinct (n ∷ rest)
    fd = rw e at v.free_distinct

    ap_all : (m : ℕ) → (mem m (n ∷ rest) && mem m used) ≡ false
    ap_all m = rw e at (v.apart m)

    cov_all : (m : ℕ) → (mem m (n ∷ rest) || mem m used) ≡ ltb m b.blocks_exist
    cov_all m = rw e at (v.cover m)

    len : length b.free_blocks ≡ suc (length rest)
    len = ap length e

    unused : mem n used ≡ false
    unused = ground (arith, ap_all n)

-- The length of the file is of no account here.
block_size-Owns :
    (ok : Bool) (b : Blocks) (used : List ℕ) → Owns b used → Owns (block_size ok b) used
unfolding block_size
block_size-Owns false b used v = v
block_size-Owns true b used v = record {
  free_distinct = v.free_distinct;
  used_distinct = v.used_distinct;
  apart = v.apart;
  cover = v.cover;
  counted = v.counted;
  few = v.few;
  total = v.total;
}

-- Extending the file by a block.
allocate-extend :
    (b : Blocks) (used : List ℕ)
    → Owns b used
    → b.blocks_exist < 2147483647
    → Owns (record b { blocks_exist = b.blocks_exist + 1 }) (b.blocks_exist ∷ used)
      × (mem b.blocks_exist used ≡ false)
allocate-extend b used v h = (
  record {
    free_distinct = v.free_distinct;
    used_distinct = (unused, v.used_distinct);
    apart = λ m. ground (arith, v.apart m, v.cover m);
    cover = λ m. ground (arith, v.cover m);
    counted = v.counted;
    few = omega arith;
    total = omega (arith, v.total);
  },
  unused,
)
  where
    unused : mem b.blocks_exist used ≡ false
    unused = ground (arith, v.cover b.blocks_exist)

-- What an allocation may do: hand out a block that nobody has, or refuse when all blocks that an
-- `int32_t` can name are in use.
abbrev pub Allocates : Bool → Blocks → List ℕ → Type 0
Allocates ok b used =
    ((n : ℕ) × (b' : Blocks) × (block_allocate_new ok b ≡ some (pos n, b'))
      × (mem n used ≡ false)
      × Owns b' (n ∷ used))
    ⊎ ((block_allocate_new ok b ≡ some (negsuc 0, b)) × (length used ≡ 2147483647))

allocate-cases :
    (ok : Bool) (b : Blocks) (used free : List ℕ)
    → Owns b used
    → b.free_blocks ≡ free
    → Allocates ok b used
unfolding block_allocate_new
allocate-cases ok b used (n ∷ rest) v e =
    let r = allocate-free b used n rest v e in
    inl (
      n,
      record b { free_blocks = rest; blocks_free = (b.blocks_free + 2 ^ 32 - 1) % 2 ^ 32 },
      rw e refl,
      r.1,
      r.0,
    )
allocate-cases ok b used [] v e = elim (Bool-cases (leb 2147483647 b.blocks_exist)) [
  | inl full ↦ inr (rw (e, full) refl, ground (arith, ap length e, v.total, v.few))
  | inr more ↦
      let r = allocate-extend b used v (ground arith) in
      let none_free : (b.blocks_free == 0) ≡ true = ground (arith, v.counted, ap length e) in
      inl (
        b.blocks_exist,
        block_size ok (record b { blocks_exist = b.blocks_exist + 1 }),
        rw (e, more, none_free) refl,
        r.1,
        block_size-Owns ok _ _ r.0,
      )
]

pub block_allocate_new_lem :
    (ok : Bool) (b : Blocks) (used : List ℕ) → Owns b used → Allocates ok b used
block_allocate_new_lem ok b used v = allocate-cases ok b used b.free_blocks v refl

module _ (b : Blocks) (used : List ℕ) (n : ℕ) (v : Owns b used) (m : mem n used ≡ true) where
  not_free : mem n b.free_blocks ≡ false
  not_free = ground (arith, v.apart n)

  exists : n < b.blocks_exist
  exists = ground (arith, v.cover n)

  -- Giving back the last block of the file.
  free-shrink :
      n + 1 ≡ b.blocks_exist
      → Owns (record b { blocks_exist = b.blocks_exist - 1 }) (without n used)
  free-shrink e = record {
    free_distinct = v.free_distinct;
    used_distinct = without-Distinct n used v.used_distinct;
    apart = λ k. ground (arith, mem-without n k used, v.apart k);
    cover = λ k. ground (arith, mem-without n k used, v.cover k, not_free);
    counted = v.counted;
    few = omega (arith, v.few);
    total = omega (arith, v.total, length-without n used v.used_distinct m);
  }

  free-keep :
      Owns
        (record b { free_blocks = n ∷ b.free_blocks; blocks_free = (b.blocks_free + 1) % 2 ^ 32 })
        (without n used)
  free-keep = record {
    free_distinct = (not_free, v.free_distinct);
    used_distinct = without-Distinct n used v.used_distinct;
    apart = λ k. ground (arith, mem-without n k used, v.apart k);
    cover = λ k. ground (arith, mem-without n k used, v.cover k);
    counted = omega (arith, v.counted, v.few, v.total, length-without n used v.used_distinct m);
    few = v.few;
    total = omega (arith, v.total, length-without n used v.used_distinct m);
  }

-- `db_block_free` of a block in use takes it out of use, keeps the account of all others, also where
-- it shortens the file, and no assertion of it fails.
pub block_free_lem :
    (ok : Bool) (b : Blocks) (used : List ℕ) (n : ℕ)
    → Owns b used
    → mem n used ≡ true
    → (b' : Blocks) × (block_free ok n b ≡ some b') × Owns b' (without n used)
unfolding block_free
block_free_lem ok b used n v m =
    elim (Bool-cases ((n + 1 == b.blocks_exist) && ltb 256 b.blocks_free)) [
      | inl last ↦ (
        block_size ok (record b { blocks_exist = b.blocks_exist - 1 }),
        rw (in_file, last) refl,
        block_size-Owns ok _ _ (free-shrink b used n v m (ground arith)),
      )
      | inr other ↦ (
        record b { free_blocks = n ∷ b.free_blocks; blocks_free = (b.blocks_free + 1) % 2 ^ 32 },
        rw (in_file, other, distinct-true b.free_blocks v.free_distinct) refl,
        free-keep b used n v m,
      )
    ]
  where
    in_file : leb (n + 1) b.blocks_exist ≡ true
    in_file = ground (arith, exists b used n v m)
