-- ===== src/Store/Frame.antt =====
-- The LRU list and writes to fields of an entry that are not links.
use simple_cache.Base.{◌≡◌, ◌∙◌, Option, some, none, List, [], ◌∷◌, Option-cases, inl, inr, arith}
use simple_cache.Store.{Ptr, Entry, Heap, Store, modify_at}
use simple_cache.Store.Links.{link_of, links, Seg}
use simple_cache.Store.Lru.{IsLru}

pub Seg-same_links :
    (h g : Heap) (a : Option Ptr) (ps : List Ptr) (b : Option Ptr)
    → ((q : Ptr) → links (g q) ≡ links (h q))
    → Seg h a ps b
    → Seg g a ps b
Seg-same_links h g a [] b k s = tt
Seg-same_links h g a (p ∷ ps) b k s = (k p ∙ s.0, Seg-same_links h g (some p) ps b k s.1)

pub links-modify_same :
    (h : Heap) (p : Ptr) (f : Entry → Entry)
    → ((e : Entry) → link_of (f e) ≡ link_of e)
    → (q : Ptr) → links (modify_at h p f q) ≡ links (h q)
unfolding modify_at
links-modify_same h p f k q = elim (Option-cases (h q)) [
  | inl e ↦ ground arith
  | inr (r, e) ↦ ground (arith, k r)
]

abbrev pub with_entries : Store → Heap → Store
with_entries s h = record s { entries = h }

pub IsLru-same_links :
    (s : Store) (h : Heap) (ps : List Ptr)
    → ((q : Ptr) → links (h q) ≡ links (s.entries q))
    → IsLru s ps
    → IsLru (with_entries s h) ps
IsLru-same_links s h ps k v = record {
  chain = Seg-same_links s.entries h none ps none k v.chain;
  head = v.head;
  tail = v.tail;
  distinct = v.distinct;
}
