-- ===== src/Db/Load/Entries.antt =====
-- What the load of an entry's row leaves in the database.
use simple_cache.Base.{
  ℕ, ◌+◌, ◌%◌, ◌^◌, ◌≡◌, ◌≢◌, inl, inr, refl, ◌∙◌, ap, true, false, Option, none, some, List, [],
  ◌∷◌, ◌++◌, ◌>>=◌, ◌==◌, ◌&&◌, ◌||◌, leb, ltb, arith, ==_self, Bool-cases, if◌then◌else◌, ℤ, pos,
  negsuc,
}
use mathlib.Core.Option
use simple_cache.Store.{Ptr, Entry, Store, modify_at, lru_insert}
use simple_cache.Store.Links.{links, modify_at-some, modify_at-ne}
use simple_cache.Store.Unlink.{data_of}
use simple_cache.Store.Lru.{IsLru, IsFree}
use simple_cache.Store.Frame.{with_entries, links-modify_same, IsLru-same_links}
use simple_cache.Store.Insert.{lru_insert_lem}
use simple_cache.Db.{Env, Table, Db, incr, allocate_at}
use simple_cache.Db.Refs.{table_incref, entry_incref}
use simple_cache.Db.Lookup.Write.{IsUsable}
use simple_cache.Db.Load.{Disk, load_insert, keep_entry}

abbrev pub referred : Entry → Entry
referred r = record r { refs = incr 16 r.refs }

module _ {v : Env} (d : Db v) (t p : Ptr) (e : Entry) (tb : Table v) (m : v.kh.Map) where
  -- The database with the entry in place, and the memory of tables `ts`.
  abbrev pub inserted : (Ptr → Option (Table v)) → Db v
  inserted ts = record d {
    store = with_entries d.store (modify_at d.store.entries p referred);
    keys = incr 64 d.keys;
    size_bytes = (d.size_bytes + e.data_length) % 2 ^ 64;
    table_at = ts;
  }

  abbrev filled : Table v → Table v
  filled r = record r { cache_hash_set = some (v.kh.put m e.hash p) }

  abbrev opened : Table v
  opened = record tb { refs = incr 15 tb.refs }

  -- The table has the entry, and one reference more if it was empty.
  abbrev pub table_after : Table v
  table_after = record tb {
    refs = if v.kh.size m == 0 then tb.refs + 1 else tb.refs;
    cache_hash_set = some (v.kh.put m e.hash p);
  }

  abbrev Inserts : Type 0
  Inserts =
      (ts : Ptr → Option (Table v)) × (load_insert t p d ≡ some (inserted ts))
      × (ts t ≡ some table_after)

  module _ (u : IsUsable d t tb m) (at : d.store.entries p ≡ some e)
      (live : e.deleted ≡ false) where
    here : modify_at d.store.entries p referred p ≡ some (referred e)
    here = modify_at-some d.store.entries p referred e at

    load_insert-first : (v.kh.size m == 0) ≡ true → Inserts
    unfolding load_insert table_incref entry_incref
    load_insert-first z = (
      allocate_at t (filled opened) (allocate_at t opened d.table_at),
      rw (u.table, ◌>>=◌)
          (rw (u.map, ◌>>=◌)
            (rw (z, u.table, ◌>>=◌)
              (rw (==_self t, ◌>>=◌)
                (rw (enough, ◌>>=◌) (rw (at, ◌>>=◌) (rw (here, ◌>>=◌) (rw live refl))))))),
      rw (==_self t)
          (rw z (ap (λ n. some (filled (record tb { refs = n }))) (omega (arith, u.small)))),
    )
      where
        enough :
            (leb 2 ((tb.refs + 1) % 2 ^ 15) || (leb 1 ((tb.refs + 1) % 2 ^ 15) && tb.deleted))
            ≡ true
        enough = ground (arith, u.held, u.small)

    load_insert-next : (v.kh.size m == 0) ≡ false → Inserts
    unfolding load_insert table_incref entry_incref
    load_insert-next z = (
      allocate_at t (filled tb) d.table_at,
      rw (u.table, ◌>>=◌)
          (rw (u.map, ◌>>=◌)
            (rw (z, u.table, ◌>>=◌)
              (rw (enough, ◌>>=◌) (rw (at, ◌>>=◌) (rw (here, ◌>>=◌) (rw live refl)))))),
      rw (==_self t) (rw z refl),
    )
      where
        enough : (leb 2 tb.refs || (leb 1 tb.refs && tb.deleted)) ≡ true
        enough = ground (arith, u.held_twice)

    pub load_insert_lem : Inserts
    load_insert_lem = elim (Bool-cases (v.kh.size m == 0)) [
      | inl z ↦ load_insert-first z
      | inr z ↦ load_insert-next z
    ]

module _ {v : Env} (disk : Disk) (t p : Ptr) where
  keep-run :
      (e : Entry) (d d1 : Db v) (s1 : Store) (n : ℕ)
      → e.block ≡ pos n
      → ltb n d.blocks.blocks_exist ≡ true
      → load_insert t p d ≡ some d1
      → lru_insert p d1.store ≡ some s1
      → keep_entry disk t p e d ≡ some (some n, record d1 { store = s1 })
  unfolding keep_entry
  keep-run e d d1 s1 n b l i r = rw (keep_entry, b) (rw l (rw (i, ◌>>=◌) (rw (r, ◌>>=◌) refl)))

  keep-run_file :
      (e : Entry) (d d1 : Db v) (s1 : Store) (tb : Table v) (n : ℕ)
      → e.block ≡ negsuc n
      → d.table_at t ≡ some tb
      → disk.access (tb.hash, e.hash, e.it) ≡ true
      → load_insert t p d ≡ some d1
      → lru_insert p d1.store ≡ some s1
      → keep_entry disk t p e d ≡ some (none, record d1 { store = s1 })
  unfolding keep_entry
  keep-run_file e d d1 s1 tb n b at l i r =
      rw (keep_entry, b) (rw (at, ◌>>=◌) (rw l (rw (i, ◌>>=◌) (rw (r, ◌>>=◌) refl))))

-- The block of an entry, if it has one, and that its block or its file is there.
abbrev pub block_of : ℤ → Option ℕ
block_of (pos n) = some n
block_of (negsuc n) = none

abbrev pub IsPresent : Disk → ℕ → ℕ → Entry → ℤ → Type 0
IsPresent disk blocks table e (pos n) = ltb n blocks ≡ true
IsPresent disk blocks table e (negsuc n) = disk.access (table, e.hash, e.it) ≡ true

-- An entry with its block, after `load_insert`, at the end of the list.
pub record Kept {v : Env} (d d' : Db v) (t p : Ptr) (e : Entry) (tb : Table v) (m : v.kh.Map)
    (ps : List Ptr) : Type 0 where
  pub table : d'.table_at t ≡ some (table_after d t p e tb m)
  pub lru : IsLru d'.store (ps ++ p ∷ [])
  pub content : Option.map data_of (d'.store.entries p) ≡ some (data_of (referred e))
  pub blocks : d'.blocks ≡ d.blocks
  pub size : d'.size_bytes ≡ (d.size_bytes + e.data_length) % 2 ^ 64
  pub keys : d'.keys ≡ incr 64 d.keys
  pub tables : d'.tables ≡ d.tables
  pub others :
      (q : Ptr)
      → q ≢ p
      → Option.map data_of (d'.store.entries q) ≡ Option.map data_of (d.store.entries q)

module _ {v : Env} (disk : Disk) (d : Db v) (t p : Ptr) (e : Entry) (tb : Table v) (m : v.kh.Map)
    (ps : List Ptr) (u : IsUsable d t tb m) (at : d.store.entries p ≡ some e)
    (live : e.deleted ≡ false) (lru : IsLru d.store ps) (free : IsFree d.store p) where
  abbrev placed : Store
  placed = with_entries d.store (modify_at d.store.entries p referred)

  same : (q : Ptr) → links (modify_at d.store.entries p referred q) ≡ links (d.store.entries q)
  same = links-modify_same d.store.entries p referred (λ r. refl)

  pub keep_entry-Kept_any :
      (z : ℤ)
      → e.block ≡ z
      → IsPresent disk d.blocks.blocks_exist tb.hash e z
      → (d' : Db v) × (keep_entry disk t p e d ≡ some (block_of z, d')) × Kept d d' t p e tb m ps
  keep_entry-Kept_any z b l =
      let i = load_insert_lem d t p e tb m u at live in
      let s = lru_insert_lem placed p ps (IsLru-same_links d.store _ ps same lru) (same p ∙ free) in
      (
        record (inserted d t p e tb m i.0) { store = s.0 },
        run z b l i.0 i.1 s.0 s.1,
        record {
          table = i.2;
          lru = s.2.lru;
          content =
              s.2.same p ∙ ap (Option.map data_of) (modify_at-some d.store.entries p referred e at);
          blocks = refl;
          size = refl;
          keys = refl;
          tables = refl;
          others = λ q n.
              s.2.same q ∙ ap (Option.map data_of) (modify_at-ne d.store.entries p q referred n);
        },
      )
    where
      run :
          (z : ℤ)
          → e.block ≡ z
          → IsPresent disk d.blocks.blocks_exist tb.hash e z
          → (ts : Ptr → Option (Table v)) → load_insert t p d ≡ some (inserted d t p e tb m ts)
          → (s : Store) → lru_insert p placed ≡ some s
          → keep_entry disk t p e d
            ≡ some (block_of z, record (inserted d t p e tb m ts) { store = s })
      run (pos n) b l ts i s r = keep-run disk t p e d (inserted d t p e tb m ts) s n b l i r
      run (negsuc n) b l ts i s r =
          keep-run_file disk t p e d (inserted d t p e tb m ts) s tb n b u.table l i r

  pub keep_entry-Kept :
      (n : ℕ)
      → e.block ≡ pos n
      → ltb n d.blocks.blocks_exist ≡ true
      → (d' : Db v) × (keep_entry disk t p e d ≡ some (some n, d')) × Kept d d' t p e tb m ps
  keep_entry-Kept n b l = keep_entry-Kept_any (pos n) b l
