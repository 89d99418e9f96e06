-- ===== src/Db/Refs/Complete.antt =====
-- `db_complete_writing` and the LRU list.
use simple_cache.Base.{◌≡◌, refl, ◌∙◌, ap, true, false, some, List, [], ◌∷◌, ◌++◌, ◌>>=◌}
use mathlib.Core.Option
use simple_cache.Store.{Ptr, Entry, Store, modify_at, lru_insert}
use simple_cache.Store.Links.{links, modify_at-some}
use simple_cache.Store.Unlink.{data_of}
use simple_cache.Store.Lru.{IsLru, IsFree, Relinked}
use simple_cache.Store.Frame.{with_entries, links-modify_same, IsLru-same_links}
use simple_cache.Store.Insert.{lru_insert_lem}
use simple_cache.Db.{Env, Db}
use simple_cache.Db.Refs.{complete_writing}

abbrev pub written : Entry → Entry
written e = record e { writing = false }

abbrev stored : Ptr → Store → Store
stored p s = with_entries s (modify_at s.entries p written)

complete-run :
    {v : Env} (d : Db v) (p : Ptr) (e : Entry) (s : Store)
    → d.store.entries p ≡ some e
    → e.writing ≡ true
    → e.deleted ≡ false
    → lru_insert p (stored p d.store) ≡ some s
    → complete_writing p d ≡ some (record d { store = s })
unfolding complete_writing
complete-run d p e s l w x r = rw (l, ◌>>=◌) (rw (w, x, ◌>>=◌) (rw (r, ◌>>=◌) refl))

-- `db_complete_writing` of an entry that is being written, is not deleted and is in no list, puts it
-- at the end of the LRU list, clears its mark and keeps its other fields but the links, and no
-- assertion of it fails.
pub complete_writing_lem :
    {v : Env} (d : Db v) (p : Ptr) (e : Entry) (ps : List Ptr)
    → IsLru d.store ps
    → IsFree d.store p
    → d.store.entries p ≡ some e
    → e.writing ≡ true
    → e.deleted ≡ false
    → (s : Store) × (complete_writing p d ≡ some (record d { store = s }))
      × IsLru s (ps ++ p ∷ [])
      × (Option.map data_of (s.entries p) ≡ some (data_of (written e)))
complete_writing_lem d p e ps v f l w x =
    finish
      (lru_insert_lem (stored p d.store) p ps (IsLru-same_links d.store _ ps same v) (same p ∙ f))
  where
    same : (q : Ptr) → links (modify_at d.store.entries p written q) ≡ links (d.store.entries q)
    same = links-modify_same d.store.entries p written (λ e. refl)

    finish :
        ((s : Store) × (lru_insert p (stored p d.store) ≡ some s)
          × Relinked (stored p d.store) s (ps ++ p ∷ []) (ps ++ p ∷ []))
        → (s : Store) × (complete_writing p d ≡ some (record d { store = s }))
          × IsLru s (ps ++ p ∷ [])
          × (Option.map data_of (s.entries p) ≡ some (data_of (written e)))
    finish (s, run, k) = (
      s,
      complete-run d p e s l w x run,
      k.lru,
      k.same p ∙ ap (Option.map data_of) (modify_at-some d.store.entries p written e l),
    )
