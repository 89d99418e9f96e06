-- ===== src/Db/Allocate.antt =====
-- `db_target_write_allocate` of src/core/db.cpp.
pub mod Accounting
use simple_cache.Base.{
  ℕ, ◌+◌, ◌-◌, ◌%◌, ◌^◌, Option, some, ltb, leb, if◌then◌else◌, ℤ, negsuc, eqb_ℤ, ◌>>=◌,
}
use simple_cache.Store.{Ptr, Entry}
use simple_cache.Blocks.{block_length, block_allocate_new}
use simple_cache.Db.{Env, Db, single_file, modify_entry, entry_delete}
use simple_cache.Db.Refs.{release_block}

module _ {v : Env} where
  abbrev pub set_block : Ptr → ℤ → Db v → Option (Db v)
  set_block p n = modify_entry p λ r. record r { block = n }

  abbrev pub take_block : Ptr → Db v → Option (Db v)
  take_block p d = do
    r ← block_allocate_new v.truncates d.blocks
    set_block p r.0 (record d { blocks = r.1 })

  -- Whether the entry is to be stored in a block or a file of its own.
  unfoldable pub choose_storage : Ptr → Entry → ℕ → Db v → Option (Db v)
  choose_storage p e data_length d =
      if eqb_ℤ e.block (negsuc 1)
      then (if leb data_length block_length then take_block p d else some d)
      else if ltb block_length data_length
      then (release_block e d >>= set_block p (negsuc 0))
      else if single_file e
      then (entry_delete p d >>= take_block p)
      else some d

  -- `db_target_write_allocate` up to the opening of the target
  unfoldable pub target_write_allocate : Ptr → ℕ → Db v → Option (Db v)
  target_write_allocate p data_length d = do
    e ← d.store.entries p
    d1 ← choose_storage p e data_length d
    e1 ← d1.store.entries p
    d2 ←
        if eqb_ℤ e1.block (negsuc 1)
        then set_block p (negsuc 0)
            (record d1 { size_bytes = (d1.size_bytes + data_length) % 2 ^ 64 })
        else some (record d1 {
          size_bytes = (d1.size_bytes + (data_length + 2 ^ 32 - e1.data_length) % 2 ^ 32) % 2 ^ 64;
        })
    modify_entry p (λ r. record r { data_length = data_length }) d2
