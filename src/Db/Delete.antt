-- ===== src/Db/Delete.antt =====
-- The deletion of entries and tables in src/core/db.cpp.
pub mod Entries
pub mod Unread
pub mod Hard
use simple_cache.Base.{
  ℕ, zero, suc, ◌+◌, ◌-◌, ◌%◌, ◌^◌, Bool, true, false, not, Option, none, some, ◌==◌, if◌then◌else◌,
  ◌>>=◌, ◌>>◌, assert,
}
use simple_cache.Store.{Ptr, Entry, lru_remove_node}
use simple_cache.Db.{
  Env, Db, single_file, on_store, modify_entry, modify_table, del_slot, entry_delete, entry_cleanup,
}
use simple_cache.Db.Refs.{table_deref, entry_actually_delete}

module _ {v : Env} where
  -- `db.db_size_bytes -= entry->data_length`, on 64 bits. The assertion before it subtracts
  -- `uint32_t`s, so it always holds.
  abbrev pub less_bytes : ℕ → Db v → Db v
  less_bytes n d = record d { size_bytes = (d.size_bytes + 2 ^ 64 - n) % 2 ^ 64 }

  -- An entry that is being written is not yet in the LRU list.
  abbrev pub leave_lru : Ptr → Entry → Db v → Option (Db v)
  leave_lru p e d = if e.writing then some d else on_store (lru_remove_node p) d

  -- `db_entry_handle_softdelete`
  unfoldable pub entry_handle_softdelete : Ptr → ℕ → Db v → Option (Db v)
  entry_handle_softdelete p k d = do
    e ← d.store.entries p
    if e.deleted then some d else (do
      d1 ← if single_file e then entry_delete p d else some d
      d2 ← modify_entry p (λ r. record r { deleted = true }) d1
      t ← e.table
      d3 ← del_slot t k d2
      d4 ← leave_lru p e (less_bytes e.data_length d3)
      if e.refs == 0 then entry_actually_delete p d4 else some d4)

  -- `db_delete_table_entry`
  unfoldable pub delete_table_entry : Ptr → ℕ → Bool → Db v → Option (Db v)
  delete_table_entry t k actually_delete d = do
    tb ← d.table_at t
    _ ← tb.cache_hash_set
    d1 ← modify_table t (λ r. record r { cache_hash_set = none }) d
    d2 ←
        if tb.refs == 0
        then some d1
        else (assert (not (k == v.kh.end d1.tables))
            >> some (record d1 { tables = v.kh.del d1.tables k }))
    table_deref t actually_delete d2

  -- The end of `db_entry_handle_delete`: a table without entries goes too.
  unfoldable pub delete_empty_table : Ptr → Ptr → Db v → Option (Bool × Db v)
  delete_empty_table p t d = do
    tb ← d.table_at t
    m ← tb.cache_hash_set
    if v.kh.size m == 0
        then (do
          assert (not tb.deleted)
          d1 ← modify_table t (λ r. record r { deleted = true }) d
          let k = v.kh.get d1.tables tb.hash
          assert (not (k == v.kh.end d1.tables))
          d2 ← delete_table_entry t k true d1
          d3 ← modify_entry p (λ r. record r { table = none }) d2
          some (true, d3))
        else some (false, d)

  -- `db_entry_handle_delete` with the entry's place in its table
  unfoldable pub entry_handle_delete : Ptr → ℕ → Db v → Option (Bool × Db v)
  entry_handle_delete p k d = do
    e ← d.store.entries p
    assert (not e.deleted)
    d1 ← entry_cleanup p d
    assert (not (d1.keys == 0))
    t ← e.table
    d2 ← del_slot t k (less_bytes e.data_length (record d1 { keys = d1.keys - 1 }))
    d3 ← modify_entry p (λ r. record r { deleted = true }) d2
    d4 ← leave_lru p e d3
    assert (not (e.refs == 0))
    delete_empty_table p t d4

  -- `db_entry_handle_delete` that looks the place up
  unfoldable pub entry_delete_found : Ptr → Db v → Option (Bool × Db v)
  entry_delete_found p d = do
    e ← d.store.entries p
    t ← e.table
    tb ← d.table_at t
    m ← tb.cache_hash_set
    entry_handle_delete p (v.kh.get m e.hash) d

  -- The loop of `db_table_handle_delete` over the places from `k` on, `count` of them. `kh_del`
  -- leaves `kh_end` as it is.
  unfoldable pub delete_slots : ℕ → ℕ → Ptr → Db v → Option (Db v)
  delete_slots zero k t d = some d
  delete_slots (suc count) k t d = do
    tb ← d.table_at t
    m ← tb.cache_hash_set
    d1 ← elim (v.kh.value m k) [
      | none ↦ some d
      | some p ↦ do
        e ← d.store.entries p
        if e.deleted then some d else (entry_handle_softdelete p k d >>= entry_cleanup p)
    ]
    delete_slots count (k + 1) t d1

  -- `db_table_handle_delete`
  unfoldable pub table_handle_delete : Ptr → Db v → Option (Db v)
  unfolding delete_slots
  table_handle_delete t d = do
    tb ← d.table_at t
    let k = v.kh.get d.tables tb.hash
    assert (not tb.deleted)
    d1 ← modify_table t (λ r. record r { deleted = true }) d
    m ← tb.cache_hash_set
    d2 ← delete_slots (v.kh.end m) 0 t d1
    delete_table_entry t k true d2
