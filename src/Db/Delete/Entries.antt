-- ===== src/Db/Delete/Entries.antt =====
-- What the two deletions of an entry leave behind.
use simple_cache.Base.{
  ℕ, ◌+◌, ◌-◌, ◌%◌, ◌^◌, ◌≤◌, ◌<◌, ◌≡◌, ◌≢◌, refl, ◌∙◌, ap, true, false, none, some, List, ◌∷◌,
  ◌++◌, ◌>>=◌, ◌==◌, arith, ==_self, Bool-cases, inl, inr, if◌then◌else◌,
}
use mathlib.Core.Option
use simple_cache.Store.{Ptr, Entry, Store, modify_at, lru_remove_node}
use simple_cache.Store.Links.{modify_at-some}
use simple_cache.Store.Unlink.{data_of}
use simple_cache.Store.Lru.{IsLru, IsFree, Relinked, lru_remove_node_lem}
use simple_cache.Store.Frame.{with_entries, links-modify_same, IsLru-same_links}
use simple_cache.HashMap.{IsMap, find}
use simple_cache.Db.{Env, Table, Db, single_file, allocate_at, entry_delete}
use simple_cache.Db.Refs.{entry_actually_delete}
use simple_cache.Db.Delete.{entry_handle_softdelete}

-- The entry `e` at `p` is complete, in the table `t` under its hash, and its bytes are counted.
pub record IsStored {v : Env} (d : Db v) (p : Ptr) (e : Entry) (t : Ptr) (tb : Table v)
    (m : v.kh.Map) : Type 0 where
  pub entry : d.store.entries p ≡ some e
  pub live : e.deleted ≡ false
  pub complete : e.writing ≡ false
  pub table : e.table ≡ some t
  pub table_at : d.table_at t ≡ some tb
  pub map : tb.cache_hash_set ≡ some m
  pub place : find v.kh m e.hash ≡ some p
  pub bytes : e.data_length ≤ d.size_bytes
  pub size_u64 : d.size_bytes < 2 ^ 64

abbrev pub marked : Entry → Entry
marked e = record e { deleted = true }

abbrev pub marked_store : Ptr → Store → Store
marked_store p s = with_entries s (modify_at s.entries p marked)

module _ {v : Env} (d : Db v) (p : Ptr) (e : Entry) (t : Ptr) (tb : Table v) (m : v.kh.Map)
    (i : IsStored d p e t tb m) where
  -- what the unlinked files are afterwards
  abbrev pub unlinked_after : List (ℕ × ℕ × ℕ)
  unlinked_after = if single_file e then (tb.hash, e.hash, e.it) ∷ d.unlinked else d.unlinked

  abbrev pub unlink_db : Db v
  unlink_db = record d { unlinked = unlinked_after }

  pub delete_run : (if single_file e then entry_delete p d else some d) ≡ some unlink_db
  unfolding entry_delete
  delete_run = elim (Bool-cases (single_file e)) [
    | inl k ↦ rw k (rw (i.entry, ◌>>=◌) (rw (i.table, i.table_at, ◌>>=◌) refl))
    | inr k ↦ rw k refl
  ]

  abbrev pub emptied : Table v
  emptied = record tb { cache_hash_set = some (v.kh.del m (v.kh.get m e.hash)) }

  -- The database without the entry, which is still in memory: `s` is its store, `n` the number of
  -- keys.
  abbrev pub without_entry : Store → ℕ → Db v
  without_entry s n = record d {
    store = s;
    table_at = allocate_at t emptied d.table_at;
    size_bytes = (d.size_bytes + 2 ^ 64 - e.data_length) % 2 ^ 64;
    unlinked = unlinked_after;
    keys = n;
  }

  pub soft-run :
      (s : Store)
      → lru_remove_node p (marked_store p d.store) ≡ some s
      → entry_handle_softdelete p (v.kh.get m e.hash) d ≡ (
          if e.refs == 0
          then entry_actually_delete p (without_entry s d.keys)
          else some (without_entry s d.keys))
  unfolding entry_handle_softdelete
  soft-run s r =
      rw (i.entry, ◌>>=◌)
        (rw (i.live) (
          rw (delete_run, ◌>>=◌)
            (rw (i.entry, i.table, ◌>>=◌)
              (rw (i.table_at, ◌>>=◌) (rw (i.map, i.complete, ◌>>=◌) (rw (r, ◌>>=◌) refl))))))

  -- The entry is out of its table, the list and the size; it stays in memory, marked.
  pub record Gone (d' : Db v) (ps : List Ptr) : Type 0 where
    pub lru : IsLru d'.store ps
    pub off_list : IsFree d'.store p
    pub size : d'.size_bytes + e.data_length ≡ d.size_bytes
    pub table : d'.table_at t ≡ some emptied
    pub missing : find v.kh (v.kh.del m (v.kh.get m e.hash)) e.hash ≡ none
    pub others : (h : ℕ) → h ≢ e.hash → find v.kh (v.kh.del m (v.kh.get m e.hash)) h ≡ find v.kh m h
    pub files : d'.unlinked ≡ unlinked_after
    pub mark : Option.map data_of (d'.store.entries p) ≡ some (data_of (marked e))

  module _ (k : IsMap v.kh) (xs ys : List Ptr) (u : IsLru d.store (xs ++ p ∷ ys)) where
    abbrev Unlinks : Type 0
    Unlinks =
        (s : Store) × (lru_remove_node p (marked_store p d.store) ≡ some s)
        × ((n : ℕ) → Gone (without_entry s n) (xs ++ ys))

    pub unlinks : Unlinks
    unlinks = from (
        lru_remove_node_lem (marked_store p d.store) p xs ys
          (IsLru-same_links d.store _ _ (links-modify_same d.store.entries p marked λ e. refl) u))
      where
        from :
            ((s : Store) × (lru_remove_node p (marked_store p d.store) ≡ some s)
              × Relinked (marked_store p d.store) s (xs ++ ys) (xs ++ p ∷ ys)
              × IsFree s p)
            → Unlinks
        from (s, run, r, f) = (
          s,
          run,
          λ n. record {
            lru = r.lru;
            off_list = f;
            size = omega (arith, i.bytes, i.size_u64);
            table = rw (==_self t) refl;
            missing = k.find-del_same m e.hash p i.place;
            others = λ h ne. k.find-del_other m e.hash p h i.place ne;
            files = refl;
            mark =
                r.same p
                ∙ ap (Option.map data_of) (modify_at-some d.store.entries p marked e i.entry);
          },
        )

    -- `db_entry_handle_softdelete` of a complete entry that has readers takes it out of its table,
    -- where the other hashes stay, out of the LRU list and out of the size of the database, unlinks
    -- its file if it has one, and leaves it in memory, marked as deleted. No assertion fails.
    pub softdelete_read :
        (e.refs == 0) ≡ false
        → (d' : Db v) × (entry_handle_softdelete p (v.kh.get m e.hash) d ≡ some d')
          × Gone d' (xs ++ ys)
          × (d'.keys ≡ d.keys)
    softdelete_read r = read unlinks
      where
        read :
            Unlinks
            → (d' : Db v) × (entry_handle_softdelete p (v.kh.get m e.hash) d ≡ some d')
              × Gone d' (xs ++ ys)
              × (d'.keys ≡ d.keys)
        read (s, run, g) = (without_entry s d.keys, soft-run s run ∙ (rw r refl), g d.keys, refl)
