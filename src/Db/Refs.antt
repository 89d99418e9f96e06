-- ===== src/Db/Refs.antt =====
-- The reference counts of src/core/db.cpp, what runs when one reaches 0, and the end of a write.
pub mod Counts
pub mod Complete
use simple_cache.Base.{
  ◌+◌, ◌-◌, ◌%◌, ◌^◌, Bool, false, ◌&&◌, ◌||◌, Option, none, some, ltb, ◌==◌, if◌then◌else◌, pos,
  negsuc, ◌>>=◌, ◌>>◌, assert,
}
use simple_cache.Store.{Ptr, Entry, lru_insert}
use simple_cache.Blocks.{block_free}
use simple_cache.Db.{Env, Db, single_file, incr, free_at, on_store, modify_entry, modify_table}

module _ {v : Env} where
  -- Giving back the block of an entry, if it has one.
  abbrev pub release_block : Entry → Db v → Option (Db v)
  release_block e d = elim e.block [
    | negsuc n ↦ some d
    | pos n ↦
        if single_file e
        then some d
        else (block_free v.truncates n d.blocks >>= λ b. some (record d { blocks = b }))
  ]

  -- `db_entry_actually_delete`
  unfoldable pub entry_actually_delete : Ptr → Db v → Option (Db v)
  entry_actually_delete p d = do
    e ← d.store.entries p
    assert e.lru_removed
    d1 ← release_block e d
    some (record d1 { store = record d1.store { entries = free_at p d1.store.entries } })

  -- `db_table_actually_delete`: takes out whatever table has the hash.
  unfoldable pub table_actually_delete : Ptr → Db v → Option (Db v)
  table_actually_delete t d = do
    tb ← d.table_at t
    let k = v.kh.get d.tables tb.hash
    some (record d {
      tables = if k == v.kh.end d.tables then d.tables else v.kh.del d.tables k;
      table_at = free_at t d.table_at;
    })

  -- `db_table_deref`
  unfoldable pub table_deref : Ptr → Bool → Db v → Option (Db v)
  unfolding table_actually_delete
  table_deref t actually_delete d = do
    tb ← d.table_at t
    assert (ltb 0 tb.refs)
    d1 ← modify_table t (λ r. record r { refs = r.refs - 1 }) d
    if (tb.refs - 1 == 0) && (actually_delete || tb.deleted)
        then table_actually_delete t d1
        else some d1

  -- `db_table_incref`, on the 15 bits of the field
  unfoldable pub table_incref : Ptr → Db v → Option (Db v)
  table_incref t = modify_table t λ r. record r { refs = incr 15 r.refs }

  -- `db_entry_deref`
  unfoldable pub entry_deref : Ptr → Bool → Db v → Option (Db v)
  unfolding table_deref entry_actually_delete
  entry_deref p table d = do
    e ← d.store.entries p
    d1 ← modify_entry p (λ r. record r { refs = (r.refs + 2 ^ 16 - 1) % 2 ^ 16 }) d
    d2 ← elim e.table [
      | none ↦ some d1
      | some t ↦ if table then table_deref t false d1 else some d1
    ]
    e2 ← d2.store.entries p
    if (e2.refs == 0) && e2.deleted then entry_actually_delete p d2 else some d2

  -- `db_entry_incref`
  unfoldable pub entry_incref : Ptr → Bool → Db v → Option (Db v)
  unfolding table_incref
  entry_incref p table d = do
    e ← d.store.entries p
    d1 ← modify_entry p (λ r. record r { refs = incr 16 r.refs }) d
    if table then (e.table >>= λ t. table_incref t d1) else some d1

  -- `db_complete_writing`
  unfoldable pub complete_writing : Ptr → Db v → Option (Db v)
  complete_writing p d = do
    e ← d.store.entries p
    assert e.writing
    d1 ← modify_entry p (λ r. record r { writing = false }) d
    if e.deleted then some d1 else on_store (lru_insert p) d1
