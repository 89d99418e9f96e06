-- ===== src/Db/Load/Free.antt =====
-- The free list as it is rebuilt from the marks, and where the database is blanked.
use simple_cache.Base.{
  ℕ, zero, suc, ◌+◌, ◌*◌, ◌/◌, ◌%◌, ◌≤◌, ◌≡◌, refl, subst, sym, arith, Bool, true, false, not, ◌&&◌,
  ◌||◌, some, List, [], ◌∷◌, ltb, ◌==◌, ◌>>=◌, mem, length, Distinct, Bool-cases, inl, inr,
}
use simple_cache.Blocks.{Blocks, block_free, block_size, block_length}
use simple_cache.Blocks.Ownership.{Owns, without, block_free_lem}
use simple_cache.Db.Load.{free_unmarked, free_all, cut_long, cut_rest, open_blank, block_max_load}

-- The numbers from `i` on, `count` of them.
abbrev pub range : ℕ → ℕ → List ℕ
range i zero = []
range i (suc count) = i ∷ range (i + 1) count

mem-range : (n i count : ℕ) → mem n (range i count) ≡ (not (ltb n i) && ltb n (i + count))
mem-range n i zero = ground arith
mem-range n i (suc count) = ground (arith, mem-range n (i + 1) count)

range-Distinct : (i count : ℕ) → Distinct (range i count)
range-Distinct i zero = tt
range-Distinct i (suc count) =
    (ground (arith, mem-range i (i + 1) count), range-Distinct (i + 1) count)

length-range : (i count : ℕ) → length (range i count) ≡ count
length-range i zero = refl
length-range i (suc count) = omega (arith, length-range (i + 1) count)

-- Before the loop every block counts as used.
pub range-Owns :
    (b : Blocks)
    → b.free_blocks ≡ []
    → b.blocks_free ≡ 0
    → b.blocks_exist ≤ 2147483647
    → Owns b (range 0 b.blocks_exist)
range-Owns b e z l = record {
  free_distinct = rw e tt;
  used_distinct = range-Distinct 0 b.blocks_exist;
  apart = λ n. rw e refl;
  cover = λ n. rw e (ground (arith, mem-range n 0 b.blocks_exist));
  counted = rw (e, z) refl;
  few = l;
  total = rw e (omega (arith, length-range 0 b.blocks_exist));
}

mem-without' : (n m : ℕ) (ms : List ℕ) → mem m (without n ms) ≡ (mem m ms && not (m == n))
mem-without' n m [] = refl
mem-without' n m (k ∷ ms) = ground (arith, mem-without' n m ms)

-- A block that is used exists.
exists :
    (b : Blocks) (used : List ℕ) (n : ℕ)
    → Owns b used
    → mem n used ≡ true
    → ltb n b.blocks_exist ≡ true
exists b used n v m = ground (arith, v.cover n)

-- What the loop leaves from the block `i` on: those used that are marked or before `i`.
abbrev Kept : List ℕ → ℕ → List ℕ → List ℕ → Type 0
Kept marked i used used' = (n : ℕ) → mem n used' ≡ (mem n used && (mem n marked || ltb n i))

free_unmarked-Owns :
    (ok : Bool) (marked : List ℕ) (count i : ℕ) (b : Blocks) (used : List ℕ)
    → Owns b used
    → ((n : ℕ) → (ltb n i || mem n used) ≡ (ltb n i || ltb n (i + count)))
    → (b' : Blocks) × (used' : List ℕ) × (free_unmarked ok marked count i b ≡ some b')
      × Owns b' used'
      × Kept marked i used used'
unfolding free_unmarked
free_unmarked-Owns ok marked zero i b used v h = (b, used, refl, v, λ n. ground (arith, h n))
free_unmarked-Owns ok marked (suc count) i b used v h =
    let here : mem i used ≡ true = ground (arith, h i) in
    elim (Bool-cases (mem i marked)) [
      | inl m ↦
          let r = free_unmarked-Owns ok marked count (i + 1) b used v (λ n. ground (arith, h n)) in
          (
            r.0,
            r.1,
            rw (free_unmarked, exists b used i v here) (rw m r.2),
            r.3,
            λ n. ground (arith, r.4 n, m),
          )
      | inr m ↦
          let f = block_free_lem ok b used i v here in
          let r =
            free_unmarked-Owns ok marked count (i + 1) f.0 (without i used) f.2
              (λ n. ground (arith, h n, mem-without' i n used)) in
          (
            r.0,
            r.1,
            rw (free_unmarked, exists b used i v here) (rw (m, f.1, ◌>>=◌) r.2),
            r.3,
            λ n. ground (arith, r.4 n, m, mem-without' i n used),
          )
    ]

-- In a new database, the loop of `db_load_from_save` that frees each block that no entry of the index
-- has leaves every block of the file either free, once, or in use, and in use exactly those that are
-- marked, also where a row names a block twice; no assertion fails. There are 2147483647 blocks at
-- most.
pub free_unmarked_lem :
    (ok : Bool) (marked : List ℕ) (b : Blocks)
    → b.free_blocks ≡ []
    → b.blocks_free ≡ 0
    → b.blocks_exist ≤ 2147483647
    → (b' : Blocks) × (used : List ℕ) × (free_unmarked ok marked b.blocks_exist 0 b ≡ some b')
      × Owns b' used
      × ((n : ℕ) → mem n used ≡ (ltb n b.blocks_exist && mem n marked))
free_unmarked_lem ok marked b e z l =
    let all : (n : ℕ)
        → mem n (range 0 b.blocks_exist) ≡ (not (ltb n 0) && ltb n (0 + b.blocks_exist)) =
      λ n. mem-range n 0 b.blocks_exist in
    let r =
      free_unmarked-Owns ok marked b.blocks_exist 0 b (range 0 b.blocks_exist) (range-Owns b e z l)
        (λ n. ground (arith, all n)) in
    (r.0, r.1, r.2, r.3, λ n. ground (arith, r.4 n, all n))

block_free-le :
    (ok : Bool) (i : ℕ) (b b' : Blocks)
    → block_free ok i b ≡ some b'
    → b'.blocks_exist ≤ b.blocks_exist
unfolding block_free block_size
block_free-le true i b b' h = ground arith
block_free-le false i b b' h = ground arith

free_all-Owns :
    (ok : Bool) (count i : ℕ) (b : Blocks) (used : List ℕ)
    → Owns b used
    → ((n : ℕ) → mem n used ≡ (not (ltb n i) && ltb n (i + count)))
    → (b' : Blocks) × (used' : List ℕ) × (free_all ok count i b ≡ some b')
      × Owns b' used'
      × ((n : ℕ) → mem n used' ≡ false)
      × (b'.blocks_exist ≤ b.blocks_exist)
unfolding free_all
free_all-Owns ok zero i b used v h = (b, used, refl, v, λ n. ground (arith, h n), omega arith)
free_all-Owns ok (suc count) i b used v h =
    let f = block_free_lem ok b used i v (ground (arith, h i)) in
    let r =
      free_all-Owns ok count (i + 1) f.0 (without i used) f.2
        (λ n. ground (arith, h n, mem-without' i n used)) in
    (
      r.0,
      r.1,
      rw (free_all, f.1, ◌>>=◌) r.2,
      r.3,
      r.4,
      omega (arith, r.5, block_free-le ok i b f.0 f.1),
    )

none-left : (ns : List ℕ) → ((n : ℕ) → mem n ns ≡ false) → ns ≡ []
none-left [] h = refl
none-left (n ∷ ns) h = absurd (ground (arith, h n))

-- All blocks freed, and counted as free.
free_all-blank :
    (b : Blocks)
    → b.free_blocks ≡ []
    → b.blocks_free ≡ 0
    → b.blocks_exist ≤ 8192
    → (b' : Blocks) × (free_all true b.blocks_exist 0 b ≡ some b')
      × Owns (record b' { blocks_free = b'.blocks_exist }) []
      × (b'.blocks_exist ≤ 8192)
free_all-blank b e z l =
    let r =
      free_all-Owns true b.blocks_exist 0 b (range 0 b.blocks_exist)
        (range-Owns b e z (omega arith)) (λ n. mem-range n 0 b.blocks_exist) in
    let v : Owns r.0 [] = subst (Owns r.0) (none-left r.1 r.4) r.3 in
    (
      r.0,
      r.2,
      record {
        free_distinct = v.free_distinct;
        used_distinct = v.used_distinct;
        apart = v.apart;
        cover = v.cover;
        counted = omega (arith, v.total);
        few = v.few;
        total = v.total;
      },
      omega (arith, r.5),
    )

cut_rest-whole :
    (size : ℕ) (b : Blocks)
    → b.free_blocks ≡ []
    → b.blocks_free ≡ 0
    → b.blocks_exist ≡ size / block_length
    → size ≤ block_max_load * block_length
    → (s : ℕ × Blocks) × (cut_rest true size b ≡ some s)
      × (s.1.free_blocks ≡ [])
      × (s.1.blocks_free ≡ 0)
      × (s.1.blocks_exist ≡ s.0 / block_length)
      × (s.1.blocks_exist ≤ 8192)
unfolding cut_rest
cut_rest-whole size b e z q l = elim (Bool-cases (size % block_length == 0)) [
  | inl t ↦ ((size, b), rw t refl, e, z, q, omega arith)
  | inr t ↦ (
    (
      (size / block_length) * block_length,
      record b { file_length = (size / block_length) * block_length },
    ),
    rw t refl,
    e,
    z,
    omega arith,
    omega arith,
  )
]

cut_long-whole :
    (size : ℕ) (b : Blocks)
    → b.free_blocks ≡ []
    → b.blocks_free ≡ 0
    → b.blocks_exist ≡ size / block_length
    → (s : ℕ × Blocks) × (cut_long true size b ≡ some s)
      × (s.1.free_blocks ≡ [])
      × (s.1.blocks_free ≡ 0)
      × (s.1.blocks_exist ≡ s.0 / block_length)
      × (s.0 ≤ block_max_load * block_length)
unfolding cut_long
cut_long-whole size b e z q = elim (Bool-cases (ltb (block_max_load * block_length) size)) [
  | inl t ↦ (
    (
      block_max_load * block_length,
      record b { blocks_exist = block_max_load; file_length = block_max_load * block_length },
    ),
    rw t refl,
    e,
    z,
    refl,
    omega arith,
  )
  | inr t ↦ ((size, b), rw t refl, e, z, q, ground arith)
]

-- The blanking of a block file of any length leaves at most 8192 blocks, all of them free and counted
-- as free, and no assertion fails. `ftruncate` succeeds, and the blocks were counted from the length.
pub open_blank_lem :
    (size : ℕ) (b : Blocks)
    → b.free_blocks ≡ []
    → b.blocks_free ≡ 0
    → b.blocks_exist ≡ size / block_length
    → (b' : Blocks) × (open_blank true size b ≡ some b') × Owns b' [] × (b'.blocks_exist ≤ 8192)
unfolding open_blank
open_blank_lem size b e z q =
    let c = cut_long-whole size b e z q in
    let s = cut_rest-whole c.0.0 c.0.1 c.2 c.3 c.4 c.5 in
    let f = free_all-blank s.0.1 s.2 s.3 s.5 in
    let g : free_all true (s.0.0 / block_length) 0 s.0.1 ≡ some f.0 = rw (sym s.4) f.1 in
    (
      record f.0 { blocks_free = f.0.blocks_exist },
      rw (open_blank, c.1, ◌>>=◌) (rw (s.1, ◌>>=◌) (rw (g, ◌>>=◌) refl)),
      f.2,
      f.3,
    )
