-- ===== src/Db/Targets.antt =====
-- `struct cache_target` and its operations in src/core/db.cpp. The results of `open`, by the count
-- of the tries, and the block file's descriptor are arguments.
use simple_cache.Base.{
  ℕ, zero, suc, ◌+◌, ◌-◌, ◌*◌, ◌%◌, ◌^◌, Bool, true, false, not, ◌&&◌, Option, none, some,
  if◌then◌else◌, ℤ, pos, negsuc, ltb_ℤ, eqb_ℤ, ◌>>=◌,
}
use simple_cache.Store.{Ptr, Entry}
use simple_cache.Blocks.{block_length}
use simple_cache.Db.{Env, Db, single_file, incr, modify_entry, entry_delete}
use simple_cache.Db.Refs.{entry_deref}
use simple_cache.Db.Allocate.{target_write_allocate}

-- `cache_target`. Positions are 64-bit words.
pub record CacheTarget : Type 0 where
  pub entry : Option Ptr
  pub position : ℕ
  pub end_position : ℕ
  pub fd : ℤ

-- ((off64_t) block) * BLOCK_LENGTH, as a 64-bit word
abbrev pub block_position : ℤ → ℕ
block_position (pos n) = n * block_length
block_position (negsuc n) = 2 ^ 64 - (n + 1) * block_length

module _ {v : Env} (opened : ℕ → ℤ) (blockfile : ℤ) where
  -- `db_entry_open_create`, with `tries` rounds left and `done` made
  unfoldable pub open_tries : ℕ → ℕ → Ptr → Db v → Option (ℤ × Db v)
  open_tries zero done p d = some (negsuc 0, d)
  open_tries (suc tries) done p d = elim (ltb_ℤ (opened done) (pos 0)) [
    | false ↦ some (opened done, d)
    | true ↦ do
      d1 ← modify_entry p (λ r. record r { it = incr 16 r.it }) d
      open_tries tries (done + 1) p d1
  ]

  unfoldable pub entry_open_create : Ptr → Db v → Option (ℤ × Db v)
  unfolding open_tries
  entry_open_create p d = open_tries 65500 0 p d

  -- The first part of `db_target_open`: the file of an entry, or its block.
  unfoldable pub open_file : CacheTarget → Ptr → Bool → Db v → Option (CacheTarget × Db v)
  unfolding entry_open_create
  open_file t p write d = do
    r ← if write then entry_open_create p d else some (opened 0, d)
    some ((record t { position = 0; fd = r.0 }), r.1)

  abbrev pub open_block : CacheTarget → Entry → Db v → Option (CacheTarget × Db v)
  open_block t e d = some ((record t { position = block_position e.block; fd = blockfile }), d)

  -- `db_target_open`
  unfoldable pub target_open : CacheTarget → Bool → Db v → Option (CacheTarget × Db v)
  unfolding open_file
  target_open t write d = do
    p ← t.entry
    e ← d.store.entries p
    r ← if single_file e then open_file t p write d else open_block t e d
    let end = (r.0.position + e.data_length) % 2 ^ 64
    some ((record (r.0) { end_position = end }), r.1)

  -- `db_target_setup`
  unfoldable pub target_setup : CacheTarget → Bool → Db v → Option (CacheTarget × Db v)
  unfolding target_open
  target_setup t write d =
      if write then some ((record t { fd = negsuc 0 }), d) else target_open t write d

  -- `db_target_write_allocate`, with the opening of the target
  unfoldable pub write_allocate : CacheTarget → ℕ → Db v → Option (CacheTarget × Db v)
  write_allocate t data_length d = do
    p ← t.entry
    d1 ← target_write_allocate p data_length d
    target_open t true d1

  -- `db_target_entry_close`
  unfoldable pub target_entry_close : CacheTarget → Db v → Option (CacheTarget × Db v)
  target_entry_close t d = elim t.entry [
    | none ↦ some ((record t { position = 0 }), d)
    | some p ↦ do
      e ← d.store.entries p
      let is_file = not (eqb_ℤ t.fd blockfile) && not (ltb_ℤ t.fd (pos 0))
      d1 ← if is_file && e.writing then entry_delete p d else some d
      d2 ← entry_deref p true d1
      some ((record t { entry = none; position = 0; fd = negsuc 0 }), d2)
  ]
