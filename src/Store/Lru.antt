-- ===== src/Store/Lru.antt =====
-- The LRU list of db.cpp as the list of the entries from the least to the most recently used.
use simple_cache.Base.{
  ℕ, ◌≡◌, refl, sym, ◌∙◌, ap, true, false, none, some, List, ◌∷◌, ◌++◌, mem, not-mem-split, ==_iff,
  Distinct, Distinct-split, Distinct-append, Bool-cases, inl, inr, ◌>>=◌,
}
use mathlib.Core.Option
use mathlib.Core.Option.{some-injective}
use mathlib.Core.Bool.{false≢true}
use simple_cache.Store.{
  Ptr, Entry, Heap, Store, modify_at, detached, lru_remove_node, unlink_prev, unlink_next,
}
use simple_cache.Store.Links.{
  Link, link, link_of, links, first, last, Seg, Seg-frame, Seg-outside, Seg-split, Seg-append,
  modify_at-ne, links-modify_at, first-append, last-append,
}
use simple_cache.Store.Unlink.{
  SameData, SameData-modify_at, Skipped, Closed, unlink_prev_lem, unlink_next_lem, linked-entry,
}

-- Head and tail lead along the distinct entries `ps`, both ways.
pub record IsLru (s : Store) (ps : List Ptr) : Type 0 where
  pub chain : Seg s.entries none ps none
  pub head : s.lru_head ≡ first ps none
  pub tail : s.lru_tail ≡ last none ps
  pub distinct : Distinct ps

abbrev pub free_link : Link
free_link = record { prev = none; next = none; removed = true }

-- The entry is allocated and in no list.
abbrev pub IsFree : Store → Ptr → Type 0
IsFree s p = links (s.entries p) ≡ some free_link

-- `s'` has the list `ps`, and differs from `s` in the place of entries in the list only, those of
-- `touched`.
pub record Relinked (s s' : Store) (ps touched : List Ptr) : Type 0 where
  pub lru : IsLru s' ps
  pub same : SameData s.entries s'.entries
  pub outside : (q : Ptr) → mem q touched ≡ false → s'.entries q ≡ s.entries q

pub SameData-trans : (f g h : Heap) → SameData f g → SameData g h → SameData f h
SameData-trans f g h a b q = b q ∙ a q

pub link_lem : (e : Entry) (l : Link) → links (some e) ≡ some l → link_of e ≡ l
link_lem e l k = some-injective (link_of e) l k

module _ (s : Store) (p : Ptr) (xs ys : List Ptr) (v : IsLru s (xs ++ p ∷ ys)) where
  apart :
      (mem p xs ≡ false)
      × (mem p ys ≡ false)
      × Distinct xs
      × Distinct ys
      × ((q : ℕ) → mem q xs ≡ true → mem q ys ≡ false)
  apart = Distinct-split xs p ys v.distinct

  parts : Seg s.entries none xs (some p) × Seg s.entries (last none xs) (p ∷ ys) none
  parts = Seg-split s.entries none xs (p ∷ ys) none v.chain

  apart_sym : (q : ℕ) → mem q ys ≡ true → mem q xs ≡ false
  apart_sym q m = elim (Bool-cases (mem q xs)) [
    | inl i ↦ absurd (false≢true (sym (apart.4 q i) ∙ m))
    | inr o ↦ o
  ]

  -- After both halves the rest is one chain, and the entry itself is as before.
  rejoin :
      (s1 s2 : Store)
      → Skipped s s1 xs (first ys none)
      → Closed s1 s2 ys (last none xs)
      → Relinked s
          (record s2 { entries = modify_at s2.entries p detached })
          (xs ++ ys)
          (xs ++ p ∷ ys)
  rejoin s1 s2 k c = record {
    lru = record {
      chain =
          Seg-append _ none xs ys none
            (Seg-outside s2.entries none xs (first ys none) p detached apart.0 (
              Seg-frame s1.entries s2.entries none xs (first ys none)
                (λ q m. c.outside q (apart.4 q m)) k.chain))
            (Seg-outside s2.entries (last none xs) ys none p detached apart.1 c.chain);
      head = c.head ∙ k.head ∙ sym (first-append xs ys none);
      tail = c.tail ∙ sym (last-append none xs ys);
      distinct = Distinct-append xs ys apart.2 apart.3 apart.4;
    };
    same = SameData-trans s.entries s1.entries _ k.same (
        SameData-trans s1.entries s2.entries _ c.same
          (SameData-modify_at s2.entries p detached (λ e. refl)));
    outside = λ q n.
        let o = not-mem-split q xs p ys n in
        modify_at-ne s2.entries p q detached (λ e. false≢true (sym o.1 ∙ (==_iff q p).1 e))
        ∙ c.outside q o.2
        ∙ k.outside q o.0;
  }

  abbrev Removes : Type 0
  Removes =
      (s' : Store) × (lru_remove_node p s ≡ some s')
      × Relinked s s' (xs ++ ys) (xs ++ p ∷ ys)
      × IsFree s' p

  after_both :
      (e : Entry)
      → s.entries p ≡ some e
      → e.lru_removed ≡ false
      → (s1 : Store) → unlink_prev p s ≡ some s1
      → Skipped s s1 xs (first ys none)
      → (s2 : Store) → unlink_next p s1 ≡ some s2
      → Closed s1 s2 ys (last none xs)
      → Removes
  unfolding lru_remove_node
  after_both e l n s1 run1 k s2 run2 c = (
    record s2 { entries = modify_at s2.entries p detached },
    rw (l, ◌>>=◌) (rw (n, run1, ◌>>=◌) (rw (run2, ◌>>=◌) (rw here refl))),
    rejoin s1 s2 k c,
    links-modify_at s2.entries p detached (λ _. free_link) (λ e. refl)
        ∙ ap (λ o. Option.map (λ _. free_link) (links o)) here,
  )
    where
      here : s2.entries p ≡ some e
      here = c.outside p apart.1 ∙ k.outside p apart.0 ∙ l

  after_first :
      (e : Entry)
      → s.entries p ≡ some e
      → link_of e ≡ link (last none xs) (first ys none)
      → (s1 : Store) → unlink_prev p s ≡ some s1
      → Skipped s s1 xs (first ys none)
      → Removes
  after_first e l at_p s1 run1 k =
      let r =
        unlink_next_lem s1 p e ys (last none xs) (k.outside p apart.0 ∙ l) (ap (λ t. t.next) at_p)
          (ap (λ t. t.prev) at_p) apart.3 apart.1
          (Seg-frame s.entries s1.entries (some p) ys none (λ q m. k.outside q (apart_sym q m))
            parts.1.1)
          (k.tail ∙ v.tail ∙ last-append none xs (p ∷ ys)) in
      after_both e l (ap (λ t. t.removed) at_p) s1 run1 k r.0 r.1 r.2

  -- `db_lru_remove_node` of an entry in the list takes it out, leaves the others in their order and
  -- touches nothing else, and no assertion of it fails.
  pub lru_remove_node_lem :
      (s' : Store) × (lru_remove_node p s ≡ some s')
      × Relinked s s' (xs ++ ys) (xs ++ p ∷ ys)
      × IsFree s' p
  lru_remove_node_lem =
      let (e, l) = linked-entry s.entries p _ parts.1.0 in
      let at_p : link_of e ≡ link (last none xs) (first ys none) =
        link_lem e _ (sym (ap links l) ∙ parts.1.0) in
      let r =
        unlink_prev_lem s p e xs (first ys none) l (ap (λ t. t.prev) at_p) (ap (λ t. t.next) at_p)
          apart.2 apart.0 parts.0 (v.head ∙ first-append xs (p ∷ ys) none) in
      after_first e l at_p r.0 r.1 r.2
