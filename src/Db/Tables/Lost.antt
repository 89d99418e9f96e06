-- ===== src/Db/Tables/Lost.antt =====
-- The deletion of a table that others were placed behind.
use simple_cache.Base.{
  ℕ, suc, ◌+◌, ◌-◌, ◌^◌, ◌≤◌, ◌<◌, ◌≡◌, refl, ◌∙◌, ap, true, false, none, some, List, ◌==◌, ltb,
  arith, ==_self, ◌>>=◌,
}
use simple_cache.Store.{Ptr}
use simple_cache.HashMap.{IsMap, find}
use simple_cache.Db.{Env, Table, Db, allocate_at}
use simple_cache.Db.Refs.{table_deref}
use simple_cache.Db.Delete.{delete_table_entry}
use simple_cache.Db.Tables.{other_name, probe, probe_all, table_get_read}
use simple_cache.Db.Tables.Probe.{step, probe-none, probe-found, probe-next}

module _ {v : Env} (m : IsMap v.kh) (name : List ℕ) (length : ℕ) (d : Db v) (u w : Ptr)
    (tb tw : Table v) (c : v.kh.Map) (at_hash : find v.kh d.tables (v.hash name length) ≡ some u)
    (first : d.table_at u ≡ some tb) (hash : tb.hash ≡ v.hash name length)
    (other : other_name tb name length ≡ true)
    (behind : find v.kh d.tables (step (v.hash name length) 1) ≡ some w)
    (second : d.table_at w ≡ some tw) (hash_w : tw.hash ≡ step (v.hash name length) 1)
    (same : other_name tw name length ≡ false) (live : tb.cache_hash_set ≡ some c)
    (held : 2 ≤ tb.refs) (u32 : v.hash name length < 2 ^ 32) where
  abbrev h : ℕ
  h = v.hash name length

  abbrev gone : Db v
  gone = record d {
    table_at =
        allocate_at u (record tb { cache_hash_set = none; refs = tb.refs - 1 })
          (allocate_at u (record tb { cache_hash_set = none }) d.table_at);
    tables = v.kh.del d.tables (v.kh.get d.tables h);
  }

  delete-run : delete_table_entry u (v.kh.get d.tables h) true d ≡ some gone
  unfolding delete_table_entry table_deref
  delete-run =
      rw (first, ◌>>=◌)
        (rw (live, ◌>>=◌)
          (rw (refs, present, ◌>>=◌) (rw (==_self u, some_refs, ◌>>=◌) (rw (more) refl))))
    where
      present : (v.kh.get d.tables h == v.kh.end d.tables) ≡ false
      present = ground (arith, at_hash)

      refs : (tb.refs == 0) ≡ false
      refs = ground arith

      some_refs : ltb 0 tb.refs ≡ true
      some_refs = ground arith

      more : (tb.refs - 1 == 0) ≡ false
      more = ground arith

  found-before : (n : ℕ) → probe (suc (suc n)) name length h d ≡ some (step h 1, some w)
  found-before n =
      probe-next d name length (suc n) h u tb at_hash first hash other
      ∙ probe-found d name length n (step h 1) w tw behind second hash_w same

  some_size : (n : ℕ) × (v.kh.size d.tables + 1 ≡ suc (suc n))
  some_size = (v.kh.size gone.tables, omega (arith, m.size-del d.tables h u at_hash))

  lost-after : (n k : ℕ) → k ≡ suc n → probe k name length h gone ≡ some (h, none)
  lost-after n k e = rw e (probe-none gone name length n h (m.find-del_same d.tables h u at_hash))

  -- Where a table stands behind another one because their names have the same hash, deleting the
  -- other one makes it unreachable: `db_table_get_read` of its name, which found it before, returns
  -- nothing, although it is still in the database. The other table has two references at least.
  pub delete_table_entry_loses :
      (d' : Db v) × (probe_all name length d ≡ some (step h 1, some w))
      × (delete_table_entry u (v.kh.get d.tables h) true d ≡ some d')
      × (find v.kh d'.tables (step h 1) ≡ some w)
      × (table_get_read name length d' ≡ some (none, d'))
  unfolding table_get_read
  delete_table_entry_loses = (
    gone,
    ap (λ k. probe k name length h d) some_size.1 ∙ found-before some_size.0,
    delete-run,
    m.find-del_other d.tables h u (step h 1) at_hash (λ e. omega (arith, u32)) ∙ behind,
    rw (lost-after (v.kh.size gone.tables) (v.kh.size gone.tables + 1) (omega arith), ◌>>=◌) refl,
  )
