-- ===== src/Db/Delete/Unread.antt =====
-- The deletion of an entry that nobody reads.
use simple_cache.Base.{
  ℕ, ◌≤◌, ◌≡◌, refl, sym, ◌∙◌, ap, true, false, none, some, List, ◌∷◌, ◌++◌, mem, pos, arith,
  ==_self, ==_ne,
}
use mathlib.Core.Option
use mathlib.Core.Option.{none-ne-some, some-injective}
use mathlib.Core.Bool.{false≢true}
use simple_cache.Store.{Ptr, Entry, Store, lru_remove_node}
use simple_cache.Store.Links.{links, Seg-frame}
use simple_cache.Store.Unlink.{data_of, linked-entry}
use simple_cache.Store.Lru.{IsLru, link_lem}
use simple_cache.Store.Insert.{free-not-mem}
use simple_cache.Blocks.{Blocks, block_length, block_free}
use simple_cache.Blocks.Ownership.{Owns, without, block_free_lem}
use simple_cache.HashMap.{IsMap}
use simple_cache.Db.{Env, Table, Db, single_file, free_at}
use simple_cache.Db.Refs.Counts.{actually_delete-run}
use simple_cache.Db.Delete.{entry_handle_softdelete}
use simple_cache.Db.Delete.Entries.{
  IsStored, Gone, marked, marked_store, without_entry, unlinks, soft-run,
}

-- The list is as before where memory that is not in it is freed.
IsLru-free :
    (s s' : Store) (p : Ptr) (ps : List Ptr)
    → s'.entries ≡ free_at p s.entries
    → s'.lru_head ≡ s.lru_head
    → s'.lru_tail ≡ s.lru_tail
    → mem p ps ≡ false
    → IsLru s ps
    → IsLru s' ps
IsLru-free s s' p ps a h t o v = record {
  chain =
      Seg-frame s.entries s'.entries none ps none
        (λ q i.
          ap (λ k. k q) a
          ∙ (rw (==_ne p q (λ k. false≢true (sym o ∙ ap (λ x. mem x ps) k ∙ i))) refl))
        v.chain;
  head = h ∙ v.head;
  tail = t ∙ v.tail;
  distinct = v.distinct;
}

module _ {v : Env} (d : Db v) (p : Ptr) (e : Entry) (t : Ptr) (tb : Table v) (m : v.kh.Map)
    (i : IsStored d p e t tb m) (k : IsMap v.kh) (xs ys : List Ptr)
    (u : IsLru d.store (xs ++ p ∷ ys)) (n : ℕ) (used : List ℕ) (r : e.refs ≡ 0)
    (b : e.block ≡ pos n) (small : e.data_length ≤ block_length) (own : Owns d.blocks used)
    (inn : mem n used ≡ true) where
  abbrev Frees : Type 0
  Frees =
      (d' : Db v) × (entry_handle_softdelete p (v.kh.get m e.hash) d ≡ some d')
      × (d'.store.entries p ≡ none)
      × IsLru d'.store (xs ++ ys)
      × Owns d'.blocks (without n used)

  frees :
      (s : Store)
      → lru_remove_node p (marked_store p d.store) ≡ some s
      → Gone d p e t tb m i (without_entry d p e t tb m i s d.keys) (xs ++ ys)
      → (b' : Blocks) → block_free v.truncates n d.blocks ≡ some b'
      → Owns b' (without n used)
      → (e1 : Entry) → s.entries p ≡ some e1
      → Frees
  frees s run g b' f own' e1 l =
      let q =
        some-injective (data_of e1) (data_of (marked e))
          (sym (ap (Option.map data_of) l) ∙ g.mark) in
      (
        record (without_entry d p e t tb m i s d.keys) {
          blocks = b';
          store = record s { entries = free_at p s.entries };
        },
        soft-run d p e t tb m i s run
            ∙ (rw r (
                actually_delete-run (without_entry d p e t tb m i s d.keys) p e1 n b' l
                  (ap (λ x. x.removed) (link_lem e1 _ (sym (ap links l) ∙ g.off_list)))
                  (ap (λ x. x.block) q ∙ b) (ap (λ x. single_file x) q ∙ ground arith) f)),
        rw (==_self p) refl,
        IsLru-free s _ p (xs ++ ys) refl refl refl
            (free-not-mem s.entries none (xs ++ ys) none p g.lru.chain g.off_list) g.lru,
        own',
      )

  -- `db_entry_handle_softdelete` of a complete entry without readers that has a block takes it out of
  -- the LRU list, frees its memory and gives back its block; no assertion fails.
  pub softdelete_unread :
      (d' : Db v) × (entry_handle_softdelete p (v.kh.get m e.hash) d ≡ some d')
      × (d'.store.entries p ≡ none)
      × IsLru d'.store (xs ++ ys)
      × Owns d'.blocks (without n used)
  softdelete_unread =
      with_block (block_free_lem v.truncates d.blocks used n own inn)
        (unlinks d p e t tb m i k xs ys u)
    where
      with_block :
          ((b' : Blocks) × (block_free v.truncates n d.blocks ≡ some b') × Owns b' (without n used))
          → ((s : Store) × (lru_remove_node p (marked_store p d.store) ≡ some s)
              × ((n : ℕ) → Gone d p e t tb m i (without_entry d p e t tb m i s n) (xs ++ ys)))
          → Frees
      with_block (b', f, own') (s, run, g) =
          let (e1, l) = linked-entry s.entries p _ (g 0).off_list in
          frees s run (g d.keys) b' f own' e1 l
