-- ===== src/Db/Load/Leak.antt =====
-- A row of an entry that has a block, from its load to its deletion.
use simple_cache.Base.{
  ℕ, ◌+◌, ◌^◌, ◌≤◌, ◌<◌, ◌≡◌, ◌≢◌, refl, sym, ◌∙◌, ap, true, false, Option, none, some, List, [],
  ◌∷◌, ◌>>=◌, leb, arith, ==_self, pos, length,
}
use simple_cache.Base.Decimal.{int_of}
use simple_cache.Store.{Ptr, Entry}
use simple_cache.Store.Unlink.{data_of}
use simple_cache.Store.Lru.{IsLru}
use simple_cache.HashMap.{IsMap, find}
use simple_cache.Db.{Env, Table, Db}
use simple_cache.Db.RoundTrip.{IsLru-allocate, known}
use simple_cache.Db.Lookup.Write.{IsUsable}
use simple_cache.Db.Delete.{entry_handle_delete}
use simple_cache.Db.Delete.Entries.{IsStored, marked}
use simple_cache.Db.Delete.Hard.{handle_delete_others}
use simple_cache.Db.Load.{
  Scanned, Disk, Loading, mark_block, loaded_entry, keep_entry, load_entry, with_loaded,
}
use simple_cache.Db.Load.Entries.{referred, table_after, Kept, keep_entry-Kept}

pub load-run :
    {v : Env} (disk : Disk) (t : Ptr) (s : Scanned) (l : Loading v) (tb : Table v)
    (r : Option ℕ × Db v)
    → l.db.table_at t ≡ some tb
    → 1 ≤ tb.refs
    → let p = disk.fresh l.mallocs in
      let e = loaded_entry t (v.hash s.key (length s.key)) s in
      keep_entry disk t p e (with_loaded p e l.db) ≡ some r
      → load_entry disk t s l
        ≡ some (record l { marked = mark_block r.0 l.marked; mallocs = l.mallocs + 1; db = r.1 })
unfolding load_entry
load-run disk t s l tb r at h k = rw (at, ◌>>=◌) (rw (held, ◌>>=◌) (rw (k, ◌>>=◌) refl))
  where
    held : leb 1 tb.refs ≡ true
    held = ground (arith, h)

module _ {v : Env} (disk : Disk) (t : Ptr) (s : Scanned) (l : Loading v) (tb : Table v)
    (m : v.kh.Map) (n : ℕ) (ps : List Ptr) (u : IsUsable l.db t tb m) (b : int_of s.block ≡ pos n)
    (inside : n < l.db.blocks.blocks_exist) (lru : IsLru l.db.store ps)
    (free : l.db.store.entries (disk.fresh l.mallocs) ≡ none) where
  abbrev p : Ptr
  p = disk.fresh l.mallocs

  abbrev e : Entry
  e = loaded_entry t (v.hash s.key (length s.key)) s

  abbrev d : Db v
  d = with_loaded p e l.db

  abbrev pub Loads : Db v → Type 0
  Loads d' =
      (load_entry disk t s l
        ≡ some (record l { marked = n ∷ l.marked; mallocs = l.mallocs + 1; db = d' }))
      × Kept d d' t p e tb m ps

  -- `db_load_from_save` of a row with a block that exists puts a new entry with the row's fields under
  -- its hash in the table, which gets a reference if it was empty, puts it at the end of the LRU list,
  -- counts its key and bytes, and marks its block. The entry is left with one reference, which nobody
  -- holds. The table is usable, `malloc` gave memory that was not in use, and no assertion fails.
  pub load_entry_lem : (d' : Db v) × Loads d'
  load_entry_lem =
      let at : d.store.entries p ≡ some e = rw (==_self p) refl in
      let k =
        keep_entry-Kept disk d t p e tb m ps
          (record {
            table = u.table;
            map = u.map;
            held = u.held;
            small = u.small;
            held_twice = u.held_twice;
          })
          at refl (IsLru-allocate l.db.store d.store p e ps free refl refl refl lru)
          (rw (==_self p) refl) n b (ground (arith, inside)) in
      (k.0, (load-run disk t s l tb (some n, k.0) u.table u.held k.1, k.2))

  abbrev map_after : v.kh.Map
  map_after = v.kh.put m e.hash p

  abbrev pub Stays : Db v → Type 0
  Stays d2 = (r : Entry) × (d2.store.entries p ≡ some r) × (r.refs ≡ 1) × (r.deleted ≡ true)

  deleted-Stays :
      IsMap v.kh
      → (d' : Db v) → Kept d d' t p e tb m ps
      → v.kh.size (v.kh.del map_after (v.kh.get map_after e.hash)) ≢ 0
      → l.db.size_bytes + s.data_length < 2 ^ 64
      → l.db.keys + 1 < 2 ^ 64
      → (d2 : Db v) × (entry_handle_delete p (v.kh.get map_after e.hash) d' ≡ some (false, d2))
        × Stays d2
  deleted-Stays im d' k more bytes few =
      let (r, at, f) = known (d'.store.entries p) (data_of (referred e)) k.content in
      by_entry r at f
    where
      by_entry :
          (r : Entry)
          → d'.store.entries p ≡ some r
          → data_of r ≡ data_of (referred e)
          → (d2 : Db v) × (entry_handle_delete p (v.kh.get map_after e.hash) d' ≡ some (false, d2))
            × Stays d2
      by_entry r at f =
          let h : r.hash ≡ e.hash = ap (λ x. x.hash) f in
          let one : r.refs ≡ 1 = ap (λ x. x.refs) f in
          let i : IsStored d' p r t (table_after d t p e tb m) map_after = record {
            entry = at;
            live = ap (λ x. x.deleted) f;
            complete = ap (λ x. x.writing) f;
            table = ap (λ x. x.table) f;
            table_at = k.table;
            map = refl;
            place = ap (find v.kh map_after) h ∙ im.find-put_same m e.hash p;
            bytes = omega (arith, k.size, ap (λ x. x.data_length) f);
            size_u64 = omega (arith, k.size);
          } in
          let more' : v.kh.size (v.kh.del map_after (v.kh.get map_after r.hash)) ≢ 0 = λ z.
            more (ap (λ x. v.kh.size (v.kh.del map_after (v.kh.get map_after x))) (sym h) ∙ z) in
          let (d2, run, gone, n) =
            handle_delete_others d' p r t (table_after d t p e tb m) map_after i
              (λ z. omega (arith, one)) (λ z. omega (arith, k.keys)) im ps [] k.lru more' in
          let (r2, at2, f2) = known (d2.store.entries p) (data_of (marked r)) gone.mark in
          (
            d2,
            ap (λ x. entry_handle_delete p (v.kh.get map_after x) d') (sym h) ∙ run,
            (r2, at2, ap (λ x. x.refs) f2 ∙ one, ap (λ x. x.deleted) f2),
          )

  -- `db_entry_handle_delete` of an entry with a block that was loaded from the index, and that nobody
  -- has used, does not free it: it stays in memory, marked as deleted, with one reference, which
  -- nobody holds. Its table has other entries, the counts of bytes and keys are in range, and `malloc`
  -- gave memory that was not in use.
  pub load_entry-leaks :
      IsMap v.kh
      → v.kh.size (v.kh.del map_after (v.kh.get map_after e.hash)) ≢ 0
      → l.db.size_bytes + s.data_length < 2 ^ 64
      → l.db.keys + 1 < 2 ^ 64
      → (d' : Db v) × (d2 : Db v) × Loads d'
        × (entry_handle_delete p (v.kh.get map_after e.hash) d' ≡ some (false, d2))
        × Stays d2
  load_entry-leaks im more bytes few =
      let (d', run) = load_entry_lem in
      let (d2, deleted, stays) = deleted-Stays im d' run.1 more bytes few in
      (d', d2, run, deleted, stays)
