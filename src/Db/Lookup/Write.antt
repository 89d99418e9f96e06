-- ===== src/Db/Lookup/Write.antt =====
-- What `db_entry_get_write` stores.
use simple_cache.Base.{
  ℕ, ◌+◌, ◌%◌, ◌^◌, ◌≤◌, ◌<◌, ◌≡◌, ◌⊎◌, inl, inr, refl, ap, Bool, true, false, Option, none, some,
  List, ◌>>=◌, ◌==◌, ◌&&◌, ◌||◌, leb, arith, ==_self, Bool-cases, if◌then◌else◌,
}
use simple_cache.Store.{Ptr, Entry}
use simple_cache.HashMap.{find}
use simple_cache.Db.{Env, Table, Db, incr, allocate_at}
use simple_cache.Db.Refs.{table_incref}
use simple_cache.Db.Lookup.{
  new_entry, store_entry, put_entry, collected, entry_get_write, put-collected,
}

-- A table that has entries is held by one reference besides its user's.
pub record IsUsable {v : Env} (d : Db v) (t : Ptr) (tb : Table v) (m : v.kh.Map) : Type 0 where
  pub table : d.table_at t ≡ some tb
  pub map : tb.cache_hash_set ≡ some m
  pub held : 1 ≤ tb.refs
  pub small : tb.refs + 1 < 2 ^ 15
  pub held_twice : (v.kh.size m ≡ 0) ⊎ (2 ≤ tb.refs)

-- `d'` is `d` with the entry `e` at `p` in the table at `t` under its hash. A table that was empty
-- has one reference more.
pub record Stored {v : Env} (d d' : Db v) (t : Ptr) (tb : Table v) (m : v.kh.Map) (p : Ptr)
    (e : Entry) : Type 0 where
  pub entries : d'.store.entries ≡ allocate_at p e d.store.entries
  pub head : d'.store.lru_head ≡ d.store.lru_head
  pub tail : d'.store.lru_tail ≡ d.store.lru_tail
  pub table :
      d'.table_at t
      ≡ some (record tb {
        refs = if v.kh.size m == 0 then tb.refs + 1 else tb.refs;
        cache_hash_set = some (v.kh.put m e.hash p);
      })
  pub blocks : d'.blocks ≡ d.blocks
  pub size : d'.size_bytes ≡ d.size_bytes

module _ {v : Env} (d : Db v) (t p : Ptr) (key : List ℕ) (length h : ℕ) (tb : Table v)
    (m : v.kh.Map) where
  abbrev pub entry : Entry
  entry = new_entry t key length h d.next_it

  abbrev Stores : Bool → Type 0
  Stores is_first =
      (d' : Db v) × (store_entry t key length h is_first p d ≡ some (some p, d'))
      × Stored d d' t tb m p entry
      × (d'.keys ≡ d.keys)
      × (d'.inserts ≡ d.inserts)

  -- The database with the entry and the memory of tables `ts`.
  abbrev pub added : (Ptr → Option (Table v)) → Db v
  added ts = record d {
    store = record d.store { entries = allocate_at p entry d.store.entries };
    next_it = incr 16 d.next_it;
    table_at = ts;
  }

  abbrev pub filled : Table v → Table v
  filled r = record r { cache_hash_set = some (v.kh.put m h p) }

  abbrev opened : Table v
  opened = record tb { refs = incr 15 tb.refs }

  store_entry-first : IsUsable d t tb m → v.kh.size m ≡ 0 → Stores true
  unfolding store_entry table_incref
  store_entry-first u z = (
    added (allocate_at t (filled opened) (allocate_at t opened d.table_at)),
    rw (u.table, ◌>>=◌) (rw (==_self t, ◌>>=◌) (rw (enough, ◌>>=◌) (rw (u.map, ◌>>=◌) refl))),
    record {
      entries = refl;
      head = refl;
      tail = refl;
      table =
          rw (==_self t)
            (rw z (ap (λ n. some (filled (record tb { refs = n }))) (omega (arith, u.small))));
      blocks = refl;
      size = refl;
    },
    refl,
    refl,
  )
    where
      enough :
          (leb 2 ((tb.refs + 1) % 2 ^ 15) || (leb 1 ((tb.refs + 1) % 2 ^ 15) && tb.deleted)) ≡ true
      enough = ground (arith, u.held, u.small)

  -- A table that is held twice takes the entry.
  pub store-held :
      d.table_at t ≡ some tb
      → tb.cache_hash_set ≡ some m
      → 2 ≤ tb.refs
      → store_entry t key length h false p d
        ≡ some (some p, added (allocate_at t (filled tb) d.table_at))
  unfolding store_entry
  store-held l k r = rw (l, ◌>>=◌) (rw (enough, ◌>>=◌) (rw (k, ◌>>=◌) refl))
    where
      enough : (leb 2 tb.refs || (leb 1 tb.refs && tb.deleted)) ≡ true
      enough = ground (arith, r)

  store_entry-next : IsUsable d t tb m → (v.kh.size m == 0) ≡ false → Stores false
  store_entry-next u z = (
    added (allocate_at t (filled tb) d.table_at),
    store-held u.table u.map (ground (arith, u.held_twice)),
    record {
      entries = refl;
      head = refl;
      tail = refl;
      table = rw (==_self t) (rw z refl);
      blocks = refl;
      size = refl;
    },
    refl,
    refl,
  )

-- What is put where the table does not hold the hash.
put_new :
    {v : Env} (d : Db v) (t p : Ptr) (key : List ℕ) (length : ℕ) (tb : Table v) (m : v.kh.Map)
    → IsUsable d t tb m
    → find v.kh m (v.hash key length) ≡ none
    → (d' : Db v) × (put_entry t key length p d ≡ some (some p, d'))
      × Stored d d' t tb m p (new_entry t key length (v.hash key length) d.next_it)
      × (d'.keys ≡ incr 64 d.keys)
      × (d'.inserts ≡ incr 64 d.inserts)
unfolding put_entry
put_new {v} d t p key length tb m u n = elim (Bool-cases (v.kh.size m == 0)) [
  | inl z ↦
      let r = store_entry-first d1 t p key length h tb m (usable u) (ground arith) in
      (
        r.0,
        rw (u.table, ◌>>=◌) (rw (held, ◌>>=◌) (rw (u.map, ◌>>=◌) (rw (n, z) r.1))),
        repack r.0 r.2,
        r.3,
        r.4,
      )
  | inr z ↦
      let r = store_entry-next d1 t p key length h tb m (usable u) z in
      (
        r.0,
        rw (u.table, ◌>>=◌) (rw (held, ◌>>=◌) (rw (u.map, ◌>>=◌) (rw (n, z) r.1))),
        repack r.0 r.2,
        r.3,
        r.4,
      )
]
  where
    h : ℕ
    h = v.hash key length

    d1 : Db v
    d1 = record d {
      inserts = incr 64 d.inserts;
      operations = incr 64 d.operations;
      keys = incr 64 d.keys;
    }

    held : leb 1 tb.refs ≡ true
    held = ground (arith, u.held)

    usable : IsUsable d t tb m → IsUsable d1 t tb m
    usable w = record {
      table = w.table;
      map = w.map;
      held = w.held;
      small = w.small;
      held_twice = w.held_twice;
    }

    repack :
        (d' : Db v)
        → Stored d1 d' t tb m p (new_entry t key length h d.next_it)
        → Stored d d' t tb m p (new_entry t key length h d.next_it)
    repack d' s = record {
      entries = s.entries;
      head = s.head;
      tail = s.tail;
      table = s.table;
      blocks = s.blocks;
      size = s.size;
    }

pub entry_get_write_new :
    {v : Env} (every : ℕ) (gc : Db v → Option (Db v)) (d : Db v) (t p : Ptr) (key : List ℕ)
    (length : ℕ) (tb : Table v) (m : v.kh.Map)
    → IsUsable d t tb m
    → find v.kh m (v.hash key length) ≡ none
    → (d' : Db v) × (entry_get_write every gc t key length p d ≡ collected every gc p d')
      × Stored d d' t tb m p (new_entry t key length (v.hash key length) d.next_it)
      × (d'.keys ≡ incr 64 d.keys)
      × (d'.inserts ≡ incr 64 d.inserts)
entry_get_write_new every gc d t p key length tb m u n =
    let (d', run, st, k, i) = put_new d t p key length tb m u n in
    (d', put-collected every gc t key length p p d d' run, st, k, i)
