-- ===== src/Store/Insert.antt =====
-- `db_lru_insert` and `db_lru_hit`.
use simple_cache.Base.{
  ◌≡◌, ◌≢◌, refl, sym, ◌∙◌, ap, subst, true, false, Option, none, some, List, [], ◌∷◌, ◌++◌, arith,
  ==_ne, if◌then◌else◌, mem, mem-ne, not-mem-split, ==_iff, Distinct, Distinct-append, ◌>>=◌,
  eq_ptr, is_null,
}
use mathlib.Core.Bool.{false≢true}
use simple_cache.Store.{
  Ptr, Entry, Heap, Store, modify_at, lru_remove_node, link_tail, lru_insert, lru_hit,
}
use simple_cache.Store.Links.{
  link, link_of, links, first, last, Seg, Seg-outside, Seg-append, Seg-split, Seg-set_next,
  last-mem, modify_at-ne, modify_at-some, last-append,
}
use simple_cache.Store.Unlink.{SameData, SameData-modify_at, last-cons, linked-entry}
use simple_cache.Store.Lru.{
  IsLru, IsFree, free_link, Relinked, link_lem, lru_remove_node_lem, SameData-trans,
}

-- A free entry is in no chain.
pub free-not-mem :
    (h : Heap) (a : Option Ptr) (ps : List Ptr) (b : Option Ptr) (p : Ptr)
    → Seg h a ps b
    → links (h p) ≡ some free_link
    → mem p ps ≡ false
free-not-mem h a [] b p s f = refl
free-not-mem h a (q ∷ ps) b p s f =
    rw (==_ne p q (λ e. free-or-linked (h p) (first ps b) f (rw (← e) at s.0)))
      (free-not-mem h (some q) ps b p s.1 f)
  where
    free-or-linked :
        (o : Option Entry) (n : Option Ptr)
        → links o ≡ some free_link
        → links o ≡ some (link a n)
        → ⊥
    free-or-linked o n x y = cc

Seg-last :
    (h : Heap) (a : Option Ptr) (ps : List Ptr) (b : Option Ptr) (q : Ptr)
    → last none ps ≡ some q
    → Seg h a ps b
    → (e : Entry) × (h q ≡ some e) × (e.lru_next ≡ b)
Seg-last h a [] b q k s = cc
Seg-last h a (p ∷ []) b q k s =
    let (e, l) = linked-entry h p _ s.0 in
    let same : p ≡ q = ground arith in
    (e, subst (λ k. h k ≡ some e) same l, ap (λ t. t.next) (link_lem e _ (sym (ap links l) ∙ s.0)))
Seg-last h a (p ∷ r ∷ ps) b q k s = Seg-last h (some p) (r ∷ ps) b q k s.1

abbrev with_prev : Option Ptr → Entry → Entry
with_prev a r = record r { lru_prev = a }

abbrev with_next : Option Ptr → Entry → Entry
with_next b r = record r { lru_next = b }

abbrev in_list : Entry → Entry
in_list r = record r { lru_removed = false }

-- The last two writes of `db_lru_insert`.
abbrev settled : Heap → Ptr → Heap
settled h p = modify_at (modify_at h p (with_next none)) p in_list

abbrev inserted : Heap → Ptr → Option Ptr → Store
inserted h p head = record {
  entries = settled h p;
  lru_tail = some p;
  lru_head = if is_null head then some p else head;
}

-- The run of `db_lru_insert`, with what `link_tail` returns.
insert-run :
    (s : Store) (p : Ptr) (e : Entry) (h : Heap) (e2 : Entry)
    → s.entries p ≡ some e
    → link_of e ≡ free_link
    → eq_ptr (some p) s.lru_tail ≡ false
    → link_tail p (record s { entries = modify_at s.entries p (with_prev s.lru_tail) })
      ≡ some (record s { entries = h })
    → h p ≡ some e2
    → lru_insert p s ≡ some (inserted h p s.lru_head)
unfolding lru_insert
insert-run s p e h e2 l f n t k =
    rw (l, ◌>>=◌)
      (rw (ap (λ t. t.removed) f, n, ap (λ t. t.next) f, ap (λ t. t.prev) f)
        (rw (t, ◌>>=◌) (rw (k, ◌>>=◌) (rw (modify_at-some h p (with_next none) e2 k) refl))))

-- What it leaves, if `h` has the chain `ps` leading to `p`, and `p` leading back.
insert-IsLru :
    (h : Heap) (p : Ptr) (e : Entry) (ps : List Ptr) (head : Option Ptr)
    → Seg h none ps (some p)
    → h p ≡ some e
    → e.lru_prev ≡ last none ps
    → mem p ps ≡ false
    → Distinct ps
    → head ≡ first ps none
    → IsLru (inserted h p head) (ps ++ p ∷ [])
insert-IsLru h p e ps head s k pr m d f = record {
  chain =
      Seg-append _ none ps (p ∷ []) none
        (Seg-outside _ none ps (some p) p in_list m (Seg-outside h none ps (some p) p _ m s))
        (
          ap links (modify_at-some _ p in_list _ (modify_at-some h p (with_next none) e k))
              ∙ ap (λ t. some (link t none)) pr,
          tt,
        );
  head = new_head ps f;
  tail = sym (last-append none ps (p ∷ []));
  distinct = Distinct-append ps (p ∷ []) d (refl, tt) (λ q i. ground (arith, mem-ne p q ps i m));
}
  where
    new_head :
        (ps : List Ptr)
        → head ≡ first ps none
        → (if is_null head then some p else head) ≡ first (ps ++ p ∷ []) none
    new_head [] f = rw f refl
    new_head (x ∷ ps) f = rw f refl

settled-SameData : (h : Heap) (p : Ptr) → SameData h (settled h p)
settled-SameData h p =
    SameData-trans h _ _ (SameData-modify_at h p (with_next none) (λ e. refl))
      (SameData-modify_at _ p in_list (λ e. refl))

settled-outside : (h : Heap) (p q : Ptr) → q ≢ p → settled h p q ≡ h q
settled-outside h p q n = modify_at-ne _ p q in_list n ∙ modify_at-ne h p q (with_next none) n

link_tail-none : (s : Store) (p : Ptr) → s.lru_tail ≡ none → link_tail p s ≡ some s
unfolding link_tail
link_tail-none s p t = ground arith

link_tail-some :
    (s : Store) (p q : Ptr) (t : Entry)
    → s.lru_tail ≡ some q
    → s.entries q ≡ some t
    → t.lru_next ≡ none
    → link_tail p s ≡ some (record s { entries = modify_at s.entries q (with_next (some p)) })
unfolding link_tail
link_tail-some s p q t e l n = ground arith

abbrev Inserts : Store → Ptr → List Ptr → Type 0
Inserts s p ps =
    (s' : Store) × (lru_insert p s ≡ some s') × Relinked s s' (ps ++ p ∷ []) (ps ++ p ∷ [])

insert-first :
    (s : Store) (p : Ptr) (e : Entry)
    → s.entries p ≡ some e
    → link_of e ≡ free_link
    → IsLru s []
    → Inserts s p []
insert-first s p e l f v =
    let h = modify_at s.entries p (with_prev s.lru_tail) in
    let k : h p ≡ some (with_prev s.lru_tail e) = modify_at-some s.entries p _ e l in
    (
      inserted h p s.lru_head,
      insert-run s p e h _ l f (rw v.tail refl) (link_tail-none _ p v.tail) k,
      record {
        lru = insert-IsLru h p _ [] s.lru_head tt k v.tail refl tt v.head;
        same =
            SameData-trans s.entries h _ (SameData-modify_at s.entries p _ (λ e. refl))
              (settled-SameData h p);
        outside = λ q n.
            let ne : q ≢ p = λ e. ground arith in
            settled-outside h p q ne ∙ modify_at-ne s.entries p q _ ne;
      },
    )

-- With a tail `q`, which is another entry.
module _ (s : Store) (p : Ptr) (e : Entry) (ps : List Ptr) (q : Ptr) (t : Entry)
    (l : s.entries p ≡ some e) (f : link_of e ≡ free_link) (v : IsLru s ps)
    (tail : last none ps ≡ some q) (lt : s.entries q ≡ some t) (nt : t.lru_next ≡ none)
    (m : mem p ps ≡ false) (ne : p ≢ q) (in_ps : mem q ps ≡ true) where
  abbrev first_write : Heap
  first_write = modify_at s.entries p (with_prev s.lru_tail)

  abbrev second_write : Heap
  second_write = modify_at first_write q (with_next (some p))

  second-at : second_write p ≡ some (with_prev s.lru_tail e)
  second-at = modify_at-ne first_write q p _ ne ∙ modify_at-some s.entries p _ e l

  insert-next : Inserts s p ps
  insert-next = (
    inserted second_write p s.lru_head,
    insert-run s p e second_write _ l f (rw (v.tail ∙ tail) (==_ne p q ne))
        (link_tail-some _ p q t (v.tail ∙ tail)
          (modify_at-ne s.entries p q _ (λ e. ne (sym e)) ∙ lt) nt)
        second-at,
    record {
      lru =
          insert-IsLru second_write p _ ps s.lru_head
            (Seg-set_next first_write none ps none (some p) q tail v.distinct
              (Seg-outside s.entries none ps none p _ m v.chain))
            second-at v.tail m v.distinct v.head;
      same = SameData-trans s.entries first_write _ (SameData-modify_at s.entries p _ (λ e. refl)) (
          SameData-trans first_write second_write _ (SameData-modify_at first_write q _ (λ e. refl))
            (settled-SameData second_write p));
      outside = λ o n.
          let k = not-mem-split o ps p [] n in
          let ne_p : o ≢ p = λ e. false≢true (sym k.1 ∙ (==_iff o p).1 e) in
          let ne_q : o ≢ q = λ e. false≢true (sym (rw e at k.0) ∙ in_ps) in
          settled-outside second_write p o ne_p
          ∙ modify_at-ne first_write q o _ ne_q
          ∙ modify_at-ne s.entries p o _ ne_p;
    },
  )

-- `db_lru_insert` of an entry that is in no list puts it at the end, behind the others in their
-- order, touches nothing else, and no assertion of it fails.
pub lru_insert_lem :
    (s : Store) (p : Ptr) (ps : List Ptr)
    → IsLru s ps
    → IsFree s p
    → (s' : Store) × (lru_insert p s ≡ some s') × Relinked s s' (ps ++ p ∷ []) (ps ++ p ∷ [])
lru_insert_lem s p [] v f =
    let (e, l) = linked-entry s.entries p _ f in
    insert-first s p e l (link_lem e _ (sym (ap links l) ∙ f)) v
lru_insert_lem s p (x ∷ ps) v f =
    let (e, l) = linked-entry s.entries p _ f in
    let (q, k) = last-cons none x ps in
    let (t, lt, nt) = Seg-last s.entries none (x ∷ ps) none q k v.chain in
    let m = free-not-mem s.entries none (x ∷ ps) none p v.chain f in
    let i = last-mem x q ps k in
    insert-next s p e (x ∷ ps) q t l (link_lem e _ (sym (ap links l) ∙ f)) v k lt nt m
      (λ h. false≢true (sym (mem-ne p q (x ∷ ps) i m) ∙ (==_iff q p).1 (sym h))) i

hit-run :
    (s s1 s2 : Store) (p : Ptr) (e : Entry)
    → s.entries p ≡ some e
    → e.lru_removed ≡ false
    → lru_remove_node p s ≡ some s1
    → lru_insert p s1 ≡ some s2
    → lru_hit p s ≡ some s2
unfolding lru_hit
hit-run s s1 s2 p e l n r1 r2 = rw (l, ◌>>=◌) (rw (n, r1, ◌>>=◌) r2)

-- `db_lru_hit` moves an entry of the list to its end, keeps the order of the others, changes no field
-- of any entry but those of the list, and no assertion of it fails.
pub lru_hit_lem :
    (s : Store) (p : Ptr) (xs ys : List Ptr)
    → IsLru s (xs ++ p ∷ ys)
    → (s' : Store) × (lru_hit p s ≡ some s')
      × IsLru s' ((xs ++ ys) ++ p ∷ [])
      × SameData s.entries s'.entries
lru_hit_lem s p xs ys v =
    let here = (Seg-split s.entries none xs (p ∷ ys) none v.chain).1.0 in
    let (e, l) = linked-entry s.entries p _ here in
    let r = lru_remove_node_lem s p xs ys v in
    let i = lru_insert_lem r.0 p (xs ++ ys) r.2.lru r.3 in
    (
      i.0,
      hit-run s r.0 i.0 p e l (ap (λ t. t.removed) (link_lem e _ (sym (ap links l) ∙ here))) r.1
          i.1,
      i.2.lru,
      SameData-trans s.entries r.0.entries i.0.entries r.2.same i.2.same,
    )
