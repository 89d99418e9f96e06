-- ===== src/Db/Lookup/Replace.antt =====
-- `db_entry_get_write` of a key that is stored.
use simple_cache.Base.{ℕ, ◌+◌, ◌≤◌, ◌≡◌, false, none, some, List, ◌∷◌, ◌++◌, Option, ◌==◌}
use mathlib.Core.Option
use simple_cache.Store.{Ptr, Entry, Store}
use simple_cache.Store.Unlink.{data_of}
use simple_cache.Store.Lru.{IsLru}
use simple_cache.HashMap.{IsMap, find}
use simple_cache.Db.{Env, Table, Db, incr}
use simple_cache.Db.Delete.Entries.{IsStored, marked}
use simple_cache.Db.Lookup.{new_entry, put_entry}

module _ {v : Env} (k : IsMap v.kh) (d : Db v) (q p : Ptr) (e : Entry) (t : Ptr) (tb : Table v)
    (m : v.kh.Map) (i : IsStored d q e t tb m) (xs ys : List Ptr) (u : IsLru d.store (xs ++ q ∷ ys))
    (key : List ℕ) (length : ℕ) (same : e.hash ≡ v.hash key length)
    (readers : (e.refs == 0) ≡ false) (held : 2 ≤ tb.refs) (free : d.store.entries p ≡ none) where
  abbrev d1 : Db v
  d1 = record d { inserts = incr 64 d.inserts; operations = incr 64 d.operations }

  -- What a key that is written again leaves behind.
  pub record Replaced (d' : Db v) : Type 0 where
    pub lru : IsLru d'.store (xs ++ ys)
    pub fresh :
        (it : ℕ) × (d'.store.entries p ≡ some (new_entry t key length (v.hash key length) it))
    pub old : Option.map data_of (d'.store.entries q) ≡ some (data_of (marked e))
    pub place :
        (tb' : Table v) × (m' : v.kh.Map) × (d'.table_at t ≡ some tb')
        × (tb'.cache_hash_set ≡ some m')
        × (find v.kh m' (v.hash key length) ≡ some p)
    pub size : d'.size_bytes + e.data_length ≡ d.size_bytes
    pub keys : d'.keys ≡ d.keys

  abbrev Replaces : Type 0
  Replaces = (d' : Db v) × (put_entry t key length p d ≡ some (some p, d')) × Replaced d'
