-- ===== src/Db/Allocate/Accounting.antt =====
-- What `db_target_write_allocate` does to the size of the database and to the blocks.
use simple_cache.Base.{
  ℕ, ◌+◌, ◌-◌, ◌%◌, ◌^◌, ◌≤◌, ◌<◌, ◌≡◌, ◌⊎◌, inl, inr, refl, true, false, some, List, ◌∷◌, ◌>>=◌,
  leb, ltb, ℤ, pos, negsuc, eqb_ℤ, arith, mem, length,
}
use native.Mathlib.Decide.{dec_le}
use simple_cache.Store.{Ptr, Entry, modify_at}
use simple_cache.Store.Links.{modify_at-some}
use simple_cache.Store.Frame.{with_entries}
use simple_cache.Blocks.{Blocks, block_length, block_allocate_new}
use simple_cache.Blocks.Ownership.{Owns, Allocates, block_allocate_new_lem}
use simple_cache.Db.{Env, Db, single_file}
use simple_cache.Db.Allocate.{choose_storage, target_write_allocate}

abbrev with_block : ℤ → Entry → Entry
with_block n r = record r { block = n }

abbrev with_length : ℕ → Entry → Entry
with_length n r = record r { data_length = n }

-- The entry `e'` is `e` with storage for `n` bytes in the block `b`, or without a block at -1.
abbrev pub sized : Entry → ℤ → ℕ → Entry
sized e b n = record e { block = b; data_length = n }

module _ {v : Env} (d : Db v) (p : Ptr) (e : Entry) (l : d.store.entries p ≡ some e) where
  -- the database with the block `b`, the blocks `bs`, the length `n` and the size `size`
  abbrev sized_db : ℤ → ℕ → Blocks → ℕ → Db v
  sized_db b n bs size = record d {
    store =
        with_entries d.store
          (modify_at (modify_at d.store.entries p (with_block b)) p (with_length n));
    blocks = bs;
    size_bytes = size;
  }

  sized_db-entry :
      (b : ℤ) (n : ℕ) (bs : Blocks) (size : ℕ)
      → (sized_db b n bs size).store.entries p ≡ some (sized e b n)
  sized_db-entry b n bs size =
      modify_at-some (modify_at d.store.entries p (with_block b)) p (with_length n) (with_block b e)
        (modify_at-some d.store.entries p (with_block b) e l)

  take-run :
      (n : ℕ) (b : ℤ) (bs : Blocks)
      → e.block ≡ negsuc 1
      → n ≤ block_length
      → eqb_ℤ b (negsuc 1) ≡ false
      → block_allocate_new v.truncates d.blocks ≡ some (b, bs)
      → target_write_allocate p n d
        ≡ some (sized_db b n bs ((d.size_bytes + (n + 2 ^ 32 - e.data_length) % 2 ^ 32) % 2 ^ 64))
  unfolding target_write_allocate choose_storage
  take-run n b bs k s nb run =
      rw (l, ◌>>=◌)
        (rw k (rw (small) (rw (run, ◌>>=◌) (rw (here, ◌>>=◌) (rw nb (rw (here, ◌>>=◌) refl))))))
    where
      small : leb n block_length ≡ true
      small = ground arith

      here : modify_at d.store.entries p (with_block b) p ≡ some (with_block b e)
      here = modify_at-some d.store.entries p (with_block b) e l

  file-run :
      (n : ℕ)
      → e.block ≡ negsuc 1
      → block_length < n
      → target_write_allocate p n d
        ≡ some (sized_db (negsuc 0) n d.blocks ((d.size_bytes + n) % 2 ^ 64))
  unfolding target_write_allocate choose_storage
  file-run n k s = rw (l, ◌>>=◌) (rw k (rw (large) (rw (l, k, ◌>>=◌) (rw (here, ◌>>=◌) refl))))
    where
      large : leb n block_length ≡ false
      large = ground arith

      here : modify_at d.store.entries p (with_block (negsuc 0)) p ≡ some (with_block (negsuc 0) e)
      here = modify_at-some d.store.entries p (with_block (negsuc 0)) e l

-- The storage that an entry is given for `n` bytes: a block that nobody has; the number -1 for more
-- bytes than fit a block, which `IS_SINGLE_FILE` takes for a file; or the number -1 for fewer, where
-- all blocks are in use, although `IS_SINGLE_FILE` does not take these for a file.
abbrev pub StoredIn : List ℕ → Entry → ℕ → ℤ → Blocks → Type 0
StoredIn used e n b bs =
    ((k : ℕ) × (b ≡ pos k) × (n ≤ block_length) × (mem k used ≡ false) × Owns bs (k ∷ used))
    ⊎ ((b ≡ negsuc 0) × Owns bs used × (single_file (sized e b n) ≡ true))
    ⊎ ((b ≡ negsuc 0)
        × Owns bs used
        × (single_file (sized e b n) ≡ false)
        × (length used ≡ 2147483647))

module _ {v : Env} (d : Db v) (p : Ptr) (e : Entry) (n : ℕ) (used : List ℕ)
    (l : d.store.entries p ≡ some e) (fresh : e.block ≡ negsuc 1) (empty : e.data_length ≡ 0)
    (n_u32 : n < 2 ^ 32) (size_u64 : d.size_bytes + n < 2 ^ 64) (own : Owns d.blocks used) where
  abbrev Sizes : Type 0
  Sizes =
      (d' : Db v) × (b : ℤ) × (target_write_allocate p n d ≡ some d')
      × (d'.store.entries p ≡ some (sized e b n))
      × (d'.size_bytes ≡ d.size_bytes + n)
      × StoredIn used e n b d'.blocks

  in_block : n ≤ block_length → Allocates v.truncates d.blocks used → Sizes
  in_block s (inl (k, bs, run, out, own')) = (
    sized_db d p e l (pos k) n bs _,
    pos k,
    take-run d p e l n (pos k) bs fresh s (ground arith) run,
    sized_db-entry d p e l (pos k) n bs 0,
    omega (arith, empty, n_u32, size_u64),
    inl (k, refl, s, out, own'),
  )
  in_block s (inr (run, all)) = (
    sized_db d p e l (negsuc 0) n d.blocks _,
    negsuc 0,
    take-run d p e l n (negsuc 0) d.blocks fresh s refl run,
    sized_db-entry d p e l (negsuc 0) n d.blocks 0,
    omega (arith, empty, n_u32, size_u64),
    inr (inr (refl, own, ground arith, all)),
  )

  -- `db_target_write_allocate` of an entry that has no storage yet adds its length to the size of the
  -- database, and gives it a block that nobody has if it fits one and one is left. Otherwise
  -- its block is -1, which `IS_SINGLE_FILE` takes for a file if the length does not fit a block, but
  -- not if it fits one and all blocks are in use. The blocks stay accounted for, and no assertion
  -- fails. The length fits 32 bits, the size 64.
  pub target_write_allocate_new :
      (d' : Db v) × (b : ℤ) × (target_write_allocate p n d ≡ some d')
      × (d'.store.entries p ≡ some (sized e b n))
      × (d'.size_bytes ≡ d.size_bytes + n)
      × StoredIn used e n b d'.blocks
  target_write_allocate_new = elim (dec_le n block_length) [
    | yes s ↦ in_block s (block_allocate_new_lem v.truncates d.blocks used own)
    | no s ↦ (
      sized_db d p e l (negsuc 0) n d.blocks _,
      negsuc 0,
      file-run d p e l n fresh (omega arith),
      sized_db-entry d p e l (negsuc 0) n d.blocks 0,
      omega (arith, size_u64),
      inr (inl (refl, own, ground arith)),
    )
  ]

-- `db_target_write_allocate` of an entry that has a block, for fewer bytes than it had, adds 2^32
-- to the size of the database where it means to take the difference off: the difference of two
-- `uint32_t`s wraps before it is added to the 64-bit size.
pub target_write_allocate_shrink :
    {v : Env} (d : Db v) (p : Ptr) (e : Entry) (n k : ℕ)
    → d.store.entries p ≡ some e
    → e.block ≡ pos k
    → e.data_length ≤ block_length
    → n < e.data_length
    → d.size_bytes + 2 ^ 32 < 2 ^ 64
    → (d' : Db v) × (target_write_allocate p n d ≡ some d')
      × (d'.size_bytes + (e.data_length - n) ≡ d.size_bytes + 2 ^ 32)
unfolding target_write_allocate choose_storage
target_write_allocate_shrink d p e n k l b s lt z = (
  record d {
    store = with_entries d.store (modify_at d.store.entries p (with_length n));
    size_bytes = (d.size_bytes + (n + 2 ^ 32 - e.data_length) % 2 ^ 32) % 2 ^ 64;
  },
  rw (l, ◌>>=◌)
      (rw b (
        rw (has_block, small, short, ◌>>=◌)
          (rw (l, ◌>>=◌) (rw (b) (rw has_block (rw (l, ◌>>=◌) refl)))))),
  omega arith,
)
  where
    has_block : eqb_ℤ (pos k) (negsuc 1) ≡ false
    has_block = ground arith

    small : ltb block_length n ≡ false
    small = ground arith

    short : single_file e ≡ false
    short = ground arith
