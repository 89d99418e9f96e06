-- ===== src/Db/Collect.antt =====
-- The collection of entries in src/core/db.cpp: the expired ones, found by a cursor over the tables,
-- and the least recently used ones. The loops that do not count run on fuel; `none` is a fault, or
-- the end of the fuel.
use simple_cache.Base.{
  ℕ, zero, suc, ◌+◌, ◌-◌, ◌%◌, ◌^◌, Bool, true, false, not, ◌&&◌, ◌||◌, Option, none, some, ltb,
  leb, ◌==◌, if◌then◌else◌, ◌>>=◌, ◌>>◌, assert,
}
use simple_cache.Store.{Ptr, Entry, lru_remove_node}
use simple_cache.Db.{Env, Db, on_store}
use simple_cache.Db.Refs.{entry_incref, entry_deref}
use simple_cache.Db.Delete.{entry_delete_found}
use simple_cache.Db.Lookup.{is_expired}

-- `*bytes_to_remove > 0` and `-=`, on the 32 bits of an `int`
abbrev pub is_positive : ℕ → Bool
is_positive bytes = ltb 0 bytes && ltb bytes (2 ^ 31)

abbrev pub less : ℕ → ℕ → ℕ
less bytes n = (bytes + 2 ^ 32 - n) % 2 ^ 32

module _ {v : Env} where
  -- The deletion of an entry by the collection, with a reference around it if there is none, and
  -- what `db_entry_handle_delete` returns.
  unfoldable pub collect_entry : Ptr → Entry → Db v → Option (Bool × Db v)
  collect_entry p e d =
      if e.refs == 0
      then (do
        d1 ← entry_incref p true d
        r ← entry_delete_found p d1
        d2 ← entry_deref p true r.1
        some (r.0, d2))
      else entry_delete_found p d

  -- `db_lru_cleanup_percent`. Each round takes the head out of the LRU list.
  unfoldable pub lru_cleanup_percent : ℕ → ℕ → Db v → Option (Db v)
  lru_cleanup_percent zero bytes d = none
  lru_cleanup_percent (suc fuel) bytes d = elim d.store.lru_head [
    | none ↦ some d
    | some l ↦ elim (is_positive bytes) [
      | false ↦ some d
      | true ↦ do
        e ← d.store.entries l
        elim (e.writing || e.deleted) [
          | true ↦ do d1 ← on_store (lru_remove_node l) d; lru_cleanup_percent fuel bytes d1
          | false ↦ do
            r ← collect_entry l e d
            lru_cleanup_percent fuel (less bytes e.data_length) r.1
        ]
    ]
  ]

  -- `assert(!table->deleted)`
  abbrev pub is_live : Ptr → Db v → Option (Unit {0})
  is_live t d = do tb ← d.table_at t; assert (not tb.deleted)

  -- The loop of `db_expire_cursor_table` over the places from `k` on, `count` of them: how many
  -- entries it met.
  unfoldable pub expire_slots : ℕ → ℕ → Ptr → Db v → Option (ℕ × Db v)
  expire_slots zero k t d = some (0, d)
  expire_slots (suc count) k t d = do
    tb ← d.table_at t
    m ← tb.cache_hash_set
    elim (v.kh.value m k) [
      | none ↦ is_live t d >> expire_slots count (k + 1) t d
      | some l ↦ do
        e ← d.store.entries l
        elim (not e.deleted && is_expired v.now e) [
          | false ↦ do _ ← is_live t d; r ← expire_slots count (k + 1) t d; some (r.0 + 1, r.1)
          | true ↦ do
            s ← collect_entry l e d
            elim (((v.kh.size m == 1) && (e.refs == 0)) || s.0) [
              | true ↦ some (1, s.1)
              | false ↦ do
                _ ← is_live t s.1
                r ← expire_slots count (k + 1) t s.1
                some (r.0 + 1, r.1)
            ]
        ]
    ]

  -- `db_expire_cursor_table`
  unfoldable pub expire_cursor_table : Ptr → Db v → Option (ℕ × Db v)
  unfolding expire_slots
  expire_cursor_table t d = do
    _ ← is_live t d
    tb ← d.table_at t
    m ← tb.cache_hash_set
    expire_slots (v.kh.end m) 0 t d

  -- The table at the cursor, if there is one: what `done` grows by.
  abbrev pub expire_at : ℕ → Db v → Option (ℕ × Db v)
  expire_at gc d = elim (v.kh.value d.tables gc) [
    | none ↦ some (0, d)
    | some t ↦ expire_cursor_table t d
  ]

  -- The cursor moved on, from the last place of the tables to the first.
  abbrev pub move_cursor : Db v → Db v
  move_cursor d = record d {
    table_gc = if leb (v.kh.end d.tables) (d.table_gc + 1) then 0 else d.table_gc + 1;
  }

  -- The loop of `db_expire_cursor`. Each round moves the cursor on, which comes back to the start
  -- after as many rounds as there are places.
  unfoldable pub expire_tables : ℕ → ℕ → ℕ → Db v → Option (Db v)
  unfolding expire_cursor_table
  expire_tables zero start done d = none
  expire_tables (suc fuel) start done d = do
    r ← expire_at d.table_gc d
    let d1 = move_cursor r.1
    elim (not (d1.table_gc == start) && ltb (done + r.0) 4096) [
      | true ↦ expire_tables fuel start (done + r.0) d1
      | false ↦ some d1
    ]

  -- `db_expire_cursor`: whether it has been through all tables
  unfoldable pub expire_cursor : Db v → Option (Bool × Db v)
  unfolding expire_tables
  expire_cursor d =
      let d1 = if leb (v.kh.end d.tables) d.table_gc then record d { table_gc = 0 } else d in
      let start = d1.table_gc in
      if start == v.kh.end d1.tables
      then some (true, d1)
      else (do d2 ← expire_tables (v.kh.end d1.tables) start 0 d1; some (d2.table_gc == start, d2))

  -- The loop of `db_lru_gc`: a full cycle of the cursor, or as many rounds as there are left.
  unfoldable pub expire_cycle : ℕ → Db v → Option (Db v)
  unfolding expire_cursor
  expire_cycle zero d = some d
  expire_cycle (suc rounds) d = do
    r ← expire_cursor d
    elim r.0 [ true ↦ some r.1 | false ↦ expire_cycle rounds r.1 ]

  -- `db_lru_gc` up to the flush of the index, with `settings.max_size`, the number of bytes to
  -- remove from a database of a given size, which is computed with a `float`, and the fuel of the
  -- cleanup
  unfoldable pub lru_gc : ℕ → (ℕ → ℕ) → ℕ → Db v → Option (Db v)
  unfolding expire_cycle lru_cleanup_percent
  lru_gc max_size to_remove fuel d =
      if ltb 0 max_size && ltb max_size d.size_bytes
      then (do d1 ← expire_cycle 5 d; lru_cleanup_percent fuel (to_remove d1.size_bytes) d1)
      else (do r ← expire_cursor d; some r.1)
