-- ===== src/Db/Lookup.antt =====
-- The entry lookups of src/core/db.cpp.
pub mod Read
pub mod Write
pub mod Replace
use simple_cache.Base.{
  ℕ, ◌%◌, ◌^◌, ◌≡◌, refl, Bool, true, false, not, ◌&&◌, ◌||◌, Option, none, some, List, ltb, leb,
  ◌==◌, if◌then◌else◌, pos, negsuc, eqb_ℤ, ◌>>=◌, ◌>>◌, assert,
}
use simple_cache.ReadBuffer.{strncmp}
use simple_cache.Store.{Ptr, Entry, lru_hit}
use simple_cache.HashMap.{find}
use simple_cache.Db.{Env, Db, incr, allocate_at, on_store, modify_table}
use simple_cache.Db.Refs.{entry_incref, entry_deref, table_incref}
use simple_cache.Db.Delete.{entry_delete_found, entry_handle_softdelete}

-- `entry->key_length != length || strncmp(key, entry->key, length) != 0`
abbrev pub other_key : Entry → List ℕ → ℕ → Bool
other_key e key length =
    not (e.key_length == length) || not (eqb_ℤ (strncmp key e.key length) (pos 0))

-- `entry->expires != 0 && entry->expires < current_time.tv_sec`
abbrev pub is_expired : ℕ → Entry → Bool
is_expired now e = not (e.expires == 0) && ltb e.expires now

-- `db_entry_new` at the address that `malloc` returns, and the fields that `db_entry_get_write`
-- sets then, with the reference and the mark of the writer
abbrev pub new_entry : Ptr → List ℕ → ℕ → ℕ → ℕ → Entry
new_entry t key length h it = record {
  table = some t;
  hash = h;
  key = key;
  key_length = length % 2 ^ 14;
  writing = true;
  deleted = false;
  refs = 1;
  data_length = 0;
  block = negsuc 1;
  expires = 0;
  lru_next = none;
  lru_prev = none;
  it = it;
  lru_removed = true;
}

module _ {v : Env} where
  -- The statistics of a get, and of a delete.
  abbrev pub count_get : Db v → Db v
  count_get d = record d { gets = incr 64 d.gets; operations = incr 64 d.operations }

  abbrev pub count_delete : Db v → Db v
  count_delete d = record d { deletes = incr 64 d.deletes; operations = incr 64 d.operations }

  -- The branches of `db_entry_get_read`: the entry has expired, or is the one asked for.
  unfoldable pub read_expired : Ptr → Db v → Option (Option Ptr × Db v)
  read_expired p d = do
    d1 ← entry_incref p false d
    r ← entry_delete_found p d1
    d3 ← entry_deref p false r.1
    some (none, d3)

  unfoldable pub read_hit : Ptr → Db v → Option (Option Ptr × Db v)
  read_hit p d = do d1 ← on_store (lru_hit p) d; d2 ← entry_incref p false d1; some (some p, d2)

  -- `db_entry_get_read` once the hash has been found
  unfoldable pub read_found : Ptr → List ℕ → ℕ → ℕ → Db v → Option (Option Ptr × Db v)
  unfolding read_expired read_hit
  read_found p key length h d = do
    e ← d.store.entries p
    assert (e.hash == h)
    if is_expired v.now e
        then read_expired p d
        else (assert (not e.deleted)
            >> (if other_key e key length
                then some (none, d)
                else if e.writing
                then some (none, count_get d)
                else read_hit p (count_get d)))

  -- `db_entry_get_read`
  unfoldable pub entry_get_read : Ptr → List ℕ → ℕ → Db v → Option (Option Ptr × Db v)
  entry_get_read t key length d = do
    tb ← d.table_at t
    m ← tb.cache_hash_set
    elim (find v.kh m (v.hash key length)) [
      | none ↦ some (none, d)
      | some p ↦ read_found p key length (v.hash key length) d
    ]

  -- `db_entry_get_delete`
  unfoldable pub entry_get_delete : Ptr → List ℕ → ℕ → Db v → Option (Option Ptr × Db v)
  entry_get_delete t key length d = do
    tb ← d.table_at t
    m ← tb.cache_hash_set
    elim (find v.kh m (v.hash key length)) [
      | none ↦ some (none, d)
      | some p ↦ do
        e ← d.store.entries p
        if other_key e key length
            then some (none, d)
            else (assert (e.hash == v.hash key length)
                >> assert (not e.deleted)
                >> (entry_incref p false (count_delete d) >>= λ d1. some (some p, d1)))
    ]

  -- The second part of `db_entry_get_write`, which stores the new entry at `p`.
  unfoldable pub store_entry : Ptr → List ℕ → ℕ → ℕ → Bool → Ptr → Db v → Option (Option Ptr × Db v)
  store_entry t key length h is_first p d = do
    let d1 = record d {
      store = record d.store {
        entries = allocate_at p (new_entry t key length h d.next_it) d.store.entries;
      };
      next_it = incr 16 d.next_it;
    }
    d2 ← if is_first then table_incref t d1 else some d1
    tb ← d2.table_at t
    assert (leb 2 tb.refs || (leb 1 tb.refs && tb.deleted))
    m ← tb.cache_hash_set
    d3 ← modify_table t (λ r. record r { cache_hash_set = some (v.kh.put m h p) }) d2
    some (some p, d3)

  -- `db_entry_get_write` up to the collection, with the address that `malloc` returns
  unfoldable pub put_entry : Ptr → List ℕ → ℕ → Ptr → Db v → Option (Option Ptr × Db v)
  put_entry t key length p d = do
    tb ← d.table_at t
    assert (leb 1 tb.refs)
    m ← tb.cache_hash_set
    let h = v.hash key length
    let d1 = record d { inserts = incr 64 d.inserts; operations = incr 64 d.operations }
    elim (find v.kh m h) [
      | none ↦
          store_entry t key length h (v.kh.size m == 0) p (record d1 { keys = incr 64 d1.keys })
      | some q ↦ do
        e ← d1.store.entries q
        assert (e.hash == h)
        if e.writing
            then some (none, d1)
            else (entry_handle_softdelete q (v.kh.get m h) d1
                >>= store_entry t key length h (v.kh.size m == 0) p)
    ]

  -- The end of `db_entry_get_write`: each time that `every` keys were written the collection runs.
  abbrev pub collected : ℕ → (Db v → Option (Db v)) → Ptr → Db v → Option (Option Ptr × Db v)
  collected every gc p d =
      if d.inserts % every == 0 then (do d1 ← gc d; some (some p, d1)) else some (some p, d)

  -- `db_entry_get_write`, with `DB_LRU_EVERY`, which is 1 in a debug build, and `db_lru_gc`
  unfoldable pub entry_get_write :
      ℕ → (Db v → Option (Db v)) → Ptr → List ℕ → ℕ → Ptr → Db v → Option (Option Ptr × Db v)
  entry_get_write every gc t key length p d = do
    r ← put_entry t key length p d
    elim r.0 [ none ↦ some (none, r.1) | some q ↦ collected every gc q r.1 ]

  -- What was put is returned, once the collection has run if it is due.
  pub put-collected :
      (every : ℕ) (gc : Db v → Option (Db v)) (t : Ptr) (key : List ℕ) (length : ℕ) (p q : Ptr)
      (d d1 : Db v)
      → put_entry t key length p d ≡ some (some q, d1)
      → entry_get_write every gc t key length p d ≡ collected every gc q d1
  unfolding entry_get_write
  put-collected every gc t key length p q d d1 e = rw (e, ◌>>=◌) refl
