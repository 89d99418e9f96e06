-- ===== src/Db/RoundTrip.antt =====
-- A key that is written, completed and read.
use simple_cache.Base.{
  ℕ, ◌%◌, ◌^◌, ◌<◌, ◌==◌, ◌≡◌, refl, sym, ◌∙◌, ap, true, false, Option, none, some, List, [], ◌∷◌,
  ◌++◌, arith, ==_self, ==_ne, append-nil, mem,
}
use mathlib.Core.Option
use mathlib.Core.Option.{none-ne-some, some-injective}
use simple_cache.Store.{Ptr, Entry, Store}
use simple_cache.Store.Links.{links, Seg-frame}
use simple_cache.Store.Unlink.{data_of, Seg-mem}
use simple_cache.Store.Lru.{IsLru}
use simple_cache.HashMap.{IsMap, find}
use simple_cache.Db.{Env, Table, Db, allocate_at, incr}
use simple_cache.Db.Refs.{complete_writing}
use simple_cache.Db.Refs.Complete.{complete_writing_lem, written}
use simple_cache.Db.Lookup.{new_entry, collected, entry_get_write, entry_get_read}
use simple_cache.Db.Lookup.Read.{other_key_same, entry_get_read_hit}
use simple_cache.Db.Lookup.Write.{IsUsable, Stored, entry_get_write_new}

-- The list is as before where memory is added that was not allocated.
pub IsLru-allocate :
    (s s' : Store) (p : Ptr) (e : Entry) (ps : List Ptr)
    → s.entries p ≡ none
    → s'.entries ≡ allocate_at p e s.entries
    → s'.lru_head ≡ s.lru_head
    → s'.lru_tail ≡ s.lru_tail
    → IsLru s ps
    → IsLru s' ps
IsLru-allocate s s' p e ps n a h t v = record {
  chain = Seg-frame s.entries s'.entries none ps none same v.chain;
  head = h ∙ v.head;
  tail = t ∙ v.tail;
  distinct = v.distinct;
}
  where
    same : (q : Ptr) → mem q ps ≡ true → s'.entries q ≡ s.entries q
    same q i =
        let (r, l) = Seg-mem s.entries none ps none q i v.chain in
        ap (λ k. k q) a ∙ (rw (==_ne p q (λ k. none-ne-some r (sym n ∙ ap s.entries k ∙ l))) refl)

-- An entry is known but for its links.
pub known :
    (o : Option Entry) (k : Entry)
    → Option.map data_of o ≡ some k
    → (e : Entry) × (o ≡ some e) × (data_of e ≡ k)
known none k e = absurd (none-ne-some k e)
known (some r) k e = (r, refl, some-injective (data_of r) k e)

module _ {v : Env} (m : IsMap v.kh) (d : Db v) (t p : Ptr) (key : List ℕ) (length : ℕ)
    (tb : Table v) (map : v.kh.Map) (ps : List Ptr) (u : IsUsable d t tb map)
    (n : find v.kh map (v.hash key length) ≡ none) (free : d.store.entries p ≡ none)
    (lru : IsLru d.store ps) (every : ℕ) (gc : Db v → Option (Db v)) (short : length < 2 ^ 14)
    (quiet : (incr 64 d.inserts % every == 0) ≡ false) where
  abbrev e0 : Entry
  e0 = new_entry t key length (v.hash key length) d.next_it

  abbrev Reads : Db v → Type 0
  Reads d2 =
      (d3 : Db v) × (entry_get_read t key length d2 ≡ some (some p, d3))
      × IsLru d3.store (ps ++ p ∷ [])

  read_back :
      (d1 : Db v)
      → Stored d d1 t tb map p e0
      → (s : Store) → IsLru s (ps ++ p ∷ [])
      → (Option.map data_of (s.entries p) ≡ some (data_of (written e0)))
      → Reads (record d1 { store = s })
  read_back d1 st s l w =
      let (e, k, f) = known (s.entries p) (data_of (written e0)) w in by_entry e k f
    where
      by_entry :
          (e : Entry)
          → s.entries p ≡ some e
          → data_of e ≡ data_of (written e0)
          → Reads (record d1 { store = s })
      by_entry e k f =
          let r =
            entry_get_read_hit (record d1 { store = s }) t key length p e ps []
              (record {
                tb = _;
                m = _;
                table = st.table;
                map = refl;
                place = m.find-put_same map (v.hash key length) p;
                entry = k;
                hash = ap (λ x. x.hash) f;
                fresh = ground (arith, ap (λ x. x.expires) f);
                kept = ap (λ x. x.deleted) f;
              })
              (other_key_same e key length (ap (λ x. x.key) f)
                (omega (arith, ap (λ x. x.key_length) f, short)))
              (ap (λ x. x.writing) f) l in
          (_, r.1, rw (append-nil ps) at r.2)

  -- A key whose hash a usable table does not hold, written to it and completed, is found by a read of
  -- the same key, the entry being the one that `malloc` gave the writer, and stands at the end of the
  -- LRU list, behind the entries from before. No assertion fails on the way. The key has fewer than
  -- 2^14 bytes, and the insert is not one of those behind which the collection runs.
  pub write-complete-read :
      (d1 d2 d3 : Db v) × (entry_get_write every gc t key length p d ≡ some (some p, d1))
      × (complete_writing p d1 ≡ some d2)
      × (entry_get_read t key length d2 ≡ some (some p, d3))
      × IsLru d3.store (ps ++ p ∷ [])
  write-complete-read = after_write (entry_get_write_new every gc d t p key length tb map u n)
    where
      after_write :
          ((d1 : Db v) × (entry_get_write every gc t key length p d ≡ collected every gc p d1)
            × Stored d d1 t tb map p e0
            × (d1.keys ≡ incr 64 d.keys)
            × (d1.inserts ≡ incr 64 d.inserts))
          → (d1 d2 d3 : Db v) × (entry_get_write every gc t key length p d ≡ some (some p, d1))
            × (complete_writing p d1 ≡ some d2)
            × (entry_get_read t key length d2 ≡ some (some p, d3))
            × IsLru d3.store (ps ++ p ∷ [])
      after_write (d1, run, st, k, i) = after_complete (
          complete_writing_lem d1 p e0 ps
            (IsLru-allocate d.store d1.store p e0 ps free st.entries st.head st.tail lru)
            (ap links here) here refl refl)
        where
          here : d1.store.entries p ≡ some e0
          here = ap (λ f. f p) st.entries ∙ (rw (==_self p) refl)

          after_complete :
              ((s : Store) × (complete_writing p d1 ≡ some (record d1 { store = s }))
                × IsLru s (ps ++ p ∷ [])
                × (Option.map data_of (s.entries p) ≡ some (data_of (written e0))))
              → (d1 d2 d3 : Db v) × (entry_get_write every gc t key length p d ≡ some (some p, d1))
                × (complete_writing p d1 ≡ some d2)
                × (entry_get_read t key length d2 ≡ some (some p, d3))
                × IsLru d3.store (ps ++ p ∷ [])
          after_complete (s, c, l, w) =
              let r = read_back d1 st s l w in
              (d1, record d1 { store = s }, r.0, run ∙ (rw (i, quiet) refl), c, r.1, r.2)
