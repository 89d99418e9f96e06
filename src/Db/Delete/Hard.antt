-- ===== src/Db/Delete/Hard.antt =====
-- `db_entry_handle_delete`, with other entries in the table and of the last one.
use simple_cache.Base.{
  ℕ, ◌+◌, ◌-◌, ◌≤◌, ◌≡◌, ◌≢◌, refl, ◌∙◌, true, false, none, some, Option, List, ◌∷◌, ◌++◌, ◌==◌,
  ltb, arith, ==_self, ◌>>=◌,
}
use simple_cache.Store.{Ptr, Entry, Store, modify_at, lru_remove_node}
use simple_cache.Store.Lru.{IsLru}
use simple_cache.Store.Unlink.{linked-entry}
use simple_cache.Store.Frame.{with_entries, links-modify_same, IsLru-same_links}
use simple_cache.HashMap.{IsMap, find}
use simple_cache.Db.{Env, Table, Db, entry_cleanup, allocate_at}
use simple_cache.Db.Refs.{table_deref}
use simple_cache.Db.Delete.{entry_handle_delete, delete_empty_table, delete_table_entry}
use simple_cache.Db.Delete.Entries.{
  IsStored, Gone, marked_store, without_entry, delete_run, unlinks,
}

module _ {v : Env} (d : Db v) (p : Ptr) (e : Entry) (t : Ptr) (tb : Table v) (m : v.kh.Map)
    (i : IsStored d p e t tb m) (in_use : e.refs ≢ 0) (counted : d.keys ≢ 0) where
  hard-run :
      (s : Store)
      → lru_remove_node p (marked_store p d.store) ≡ some s
      → entry_handle_delete p (v.kh.get m e.hash) d
        ≡ delete_empty_table p t (without_entry d p e t tb m i s (d.keys - 1))
  unfolding entry_handle_delete entry_cleanup
  hard-run s r =
      rw (i.entry, ◌>>=◌)
        (rw (i.live, ◌>>=◌)
          (rw (delete_run d p e t tb m i, ◌>>=◌)
            (rw (keys, i.table, ◌>>=◌)
              (rw (i.table_at, ◌>>=◌)
                (rw (i.map, ◌>>=◌)
                  (rw (i.entry, i.complete, ◌>>=◌) (rw (r, ◌>>=◌) (rw (refs, ◌>>=◌) refl))))))))
    where
      keys : (d.keys == 0) ≡ false
      keys = ground arith

      refs : (e.refs == 0) ≡ false
      refs = ground arith

  module _ (k : IsMap v.kh) (xs ys : List Ptr) (u : IsLru d.store (xs ++ p ∷ ys)) where
    abbrev rest : v.kh.Map
    rest = v.kh.del m (v.kh.get m e.hash)

    -- `db_entry_handle_delete` of a complete entry in use, whose table has others, takes it out of
    -- its table, where the other hashes stay, out of the LRU list and out of the counts of keys and
    -- bytes, unlinks its file if it has one, leaves it in memory, marked as deleted, and leaves the
    -- table. No assertion fails.
    pub handle_delete_others :
        v.kh.size rest ≢ 0
        → (d' : Db v) × (entry_handle_delete p (v.kh.get m e.hash) d ≡ some (false, d'))
          × Gone d p e t tb m i d' (xs ++ ys)
          × (d'.keys + 1 ≡ d.keys)
    unfolding delete_empty_table
    handle_delete_others z = others (unlinks d p e t tb m i k xs ys u)
      where
        more : (v.kh.size rest == 0) ≡ false
        more = ground arith

        others :
            ((s : Store) × (lru_remove_node p (marked_store p d.store) ≡ some s)
              × ((n : ℕ) → Gone d p e t tb m i (without_entry d p e t tb m i s n) (xs ++ ys)))
            → (d' : Db v) × (entry_handle_delete p (v.kh.get m e.hash) d ≡ some (false, d'))
              × Gone d p e t tb m i d' (xs ++ ys)
              × (d'.keys + 1 ≡ d.keys)
        others (s, run, g) = (
          without_entry d p e t tb m i s (d.keys - 1),
          hard-run s run ∙ (rw (==_self t, ◌>>=◌) (rw more refl)),
          g (d.keys - 1),
          omega arith,
        )

    abbrev Removes : Type 0
    Removes =
        (d' : Db v) × (entry_handle_delete p (v.kh.get m e.hash) d ≡ some (true, d'))
        × (find v.kh d'.tables tb.hash ≡ none)
        × (d'.table_at t
            ≡ some (record tb { deleted = true; cache_hash_set = none; refs = tb.refs - 1 }))
        × IsLru d'.store (xs ++ ys)
        × (d'.size_bytes + e.data_length ≡ d.size_bytes)

    -- the table as it ends
    abbrev closed : Table v
    closed = record tb { deleted = true; cache_hash_set = none; refs = tb.refs - 1 }

    abbrev closed_tables : Ptr → Option (Table v)
    closed_tables = allocate_at t closed (
        allocate_at t (record tb { deleted = true; cache_hash_set = none })
          (allocate_at t (record tb { deleted = true; cache_hash_set = some rest })
            (without_entry d p e t tb m i d.store 0).table_at))

    abbrev no_table : Entry → Entry
    no_table r = record r { table = none }

    abbrev closed_db : Store → Db v
    closed_db s = record (without_entry d p e t tb m i s (d.keys - 1)) {
      store = with_entries s (modify_at s.entries p no_table);
      table_at = closed_tables;
      tables = v.kh.del d.tables (v.kh.get d.tables tb.hash);
    }

    empty-run :
        (s : Store) (e1 : Entry)
        → s.entries p ≡ some e1
        → v.kh.size rest ≡ 0
        → tb.deleted ≡ false
        → 2 ≤ tb.refs
        → find v.kh d.tables tb.hash ≡ some t
        → delete_empty_table p t (without_entry d p e t tb m i s (d.keys - 1))
          ≡ some (true, closed_db s)
    unfolding delete_empty_table delete_table_entry table_deref
    empty-run s e1 l z live held at =
        rw (==_self t, ◌>>=◌)
          (rw no_keys (
            rw (live, ==_self t, ◌>>=◌)
              (rw (present, ◌>>=◌)
                (rw (refs, ◌>>=◌)
                  (rw (==_self t, some_refs, ◌>>=◌) (rw (more, ◌>>=◌) (rw (l, ◌>>=◌) refl)))))))
      where
        no_keys : (v.kh.size rest == 0) ≡ true
        no_keys = ground arith

        present : (v.kh.get d.tables tb.hash == v.kh.end d.tables) ≡ false
        present = ground (arith, at)

        refs : (tb.refs == 0) ≡ false
        refs = ground arith

        some_refs : ltb 0 tb.refs ≡ true
        some_refs = ground arith

        more : (tb.refs - 1 == 0) ≡ false
        more = ground arith

    -- `db_entry_handle_delete` of the last entry of a table, complete and in use, deletes the table
    -- with it: the table's hash leads to no table any more, the table is marked, without its entries
    -- and with a reference less, and the entry leaves the LRU list and the size. The table has its own
    -- reference and its user's, and stands under its hash. No assertion fails.
    pub handle_delete_last :
        v.kh.size rest ≡ 0
        → tb.deleted ≡ false
        → 2 ≤ tb.refs
        → find v.kh d.tables tb.hash ≡ some t
        → (d' : Db v) × (entry_handle_delete p (v.kh.get m e.hash) d ≡ some (true, d'))
          × (find v.kh d'.tables tb.hash ≡ none)
          × (d'.table_at t
              ≡ some (record tb { deleted = true; cache_hash_set = none; refs = tb.refs - 1 }))
          × IsLru d'.store (xs ++ ys)
          × (d'.size_bytes + e.data_length ≡ d.size_bytes)
    handle_delete_last z live held at = last_one (unlinks d p e t tb m i k xs ys u)
      where
        last_one :
            ((s : Store) × (lru_remove_node p (marked_store p d.store) ≡ some s)
              × ((n : ℕ) → Gone d p e t tb m i (without_entry d p e t tb m i s n) (xs ++ ys)))
            → Removes
        last_one (s, run, g) =
            let (e1, l) = linked-entry s.entries p _ (g 0).off_list in
            (
              closed_db s,
              hard-run s run ∙ empty-run s e1 l z live held at,
              k.find-del_same d.tables tb.hash t at,
              rw (==_self t) refl,
              IsLru-same_links s _ _ (links-modify_same s.entries p no_table (λ r. refl)) (g 0).lru,
              (g 0).size,
            )
