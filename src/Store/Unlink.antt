-- ===== src/Store/Unlink.antt =====
-- The two halves of `db_lru_remove_node`.
use simple_cache.Base.{
  if◌then◌else◌, sym, ap, ◌≡◌, refl, ◌∙◌, subst, true, false, Option, none, some, List, [], ◌∷◌,
  arith, ◌==◌, mem, mem-ne, Distinct, Option-cases, Bool-cases, inl, inr, ◌>>=◌,
}
use mathlib.Core.Option
use simple_cache.Store.{Ptr, Entry, Heap, Store, modify_at, unlink_prev, unlink_next}
use simple_cache.Store.Links.{
  Link, links, first, last, Seg, Seg-set_prev, Seg-set_next, last-mem, modify_at-ne,
}

-- an entry without its place in the list
abbrev pub data_of : Entry → Entry
data_of e = record e { lru_next = none; lru_prev = none; lru_removed = false }

-- The heaps hold the same entries but for their place in the list.
abbrev pub SameData : Heap → Heap → Type 0
SameData h g = (q : Ptr) → Option.map data_of (g q) ≡ Option.map data_of (h q)

pub SameData-modify_at :
    (h : Heap) (p : Ptr) (f : Entry → Entry)
    → ((e : Entry) → data_of (f e) ≡ data_of e)
    → SameData h (modify_at h p f)
unfolding modify_at
SameData-modify_at h p f k q = elim (Option-cases (h q)) [
  | inl e ↦ ground arith
  | inr (r, e) ↦ ground (arith, k r)
]

-- What a write does to the entries without their place in the list.
data_of-modify_at :
    (h : Heap) (p q : Ptr) (k f : Entry → Entry)
    → ((e : Entry) → data_of (k e) ≡ f (data_of e))
    → Option.map data_of (modify_at h p k q)
      ≡ (if p == q then Option.map f (Option.map data_of (h q)) else Option.map data_of (h q))
unfolding modify_at
data_of-modify_at h p q k f c = elim (Option-cases (h q)) [
  | inl e ↦ ground arith
  | inr (r, e) ↦ ground (arith, c r)
]

pub SameData-modify_both :
    (h g : Heap) (p : Ptr) (k f : Entry → Entry)
    → ((e : Entry) → data_of (k e) ≡ f (data_of e))
    → SameData h g
    → SameData (modify_at h p k) (modify_at g p k)
SameData-modify_both h g p k f c s q =
    data_of-modify_at g p q k f c
    ∙ ap (λ o. if p == q then Option.map f o else o) (s q)
    ∙ sym (data_of-modify_at h p q k f c)

pub linked-entry :
    (h : Heap) (p : Ptr) (l : Link) → links (h p) ≡ some l → (e : Entry) × (h p ≡ some e)
linked-entry h p l k = elim (Option-cases (h p)) [ inl e ↦ ground arith | inr (r, e) ↦ (r, e) ]

-- Every pointer of a chain is to an entry.
pub Seg-mem :
    (h : Heap) (a : Option Ptr) (ps : List Ptr) (b : Option Ptr) (q : Ptr)
    → mem q ps ≡ true
    → Seg h a ps b
    → (e : Entry) × (h q ≡ some e)
Seg-mem h a [] b q m s = cc
Seg-mem h a (p ∷ ps) b q m s = elim (Bool-cases (q == p)) [
  | inl t ↦ subst (λ k. (e : Entry) × (h k ≡ some e)) (ground arith) (linked-entry h p _ s.0)
  | inr t ↦ Seg-mem h (some p) ps b q (ground arith) s.1
]

pub last-cons : (a : Option Ptr) (p : Ptr) (ps : List Ptr) → (q : Ptr) × (last a (p ∷ ps) ≡ some q)
last-cons a p [] = (p, refl)
last-cons a p (r ∷ ps) = last-cons (some p) r ps

-- What the first half leaves: the chain `xs` now leads to `b`.
pub record Skipped (s s' : Store) (xs : List Ptr) (b : Option Ptr) : Type 0 where
  pub chain : Seg s'.entries none xs b
  pub head : s'.lru_head ≡ first xs b
  pub tail : s'.lru_tail ≡ s.lru_tail
  pub same : SameData s.entries s'.entries
  pub outside : (q : Ptr) → mem q xs ≡ false → s'.entries q ≡ s.entries q

pub unlink_prev_lem :
    (s : Store) (p : Ptr) (e : Entry) (xs : List Ptr) (b : Option Ptr)
    → s.entries p ≡ some e
    → e.lru_prev ≡ last none xs
    → e.lru_next ≡ b
    → Distinct xs
    → mem p xs ≡ false
    → Seg s.entries none xs (some p)
    → s.lru_head ≡ first xs (some p)
    → (s' : Store) × (unlink_prev p s ≡ some s') × Skipped s s' xs b
unfolding unlink_prev
unlink_prev_lem s p e [] b l pr nx d m c h = (
  record s { lru_head = b },
  ground arith,
  record { chain = tt; head = refl; tail = refl; same = λ q. refl; outside = λ q _. refl },
)
unlink_prev_lem s p e (x ∷ xs) b l pr nx d m c h =
    let (q, k) = last-cons none x xs in
    let (r, f) = Seg-mem s.entries none (x ∷ xs) (some p) q (last-mem x q xs k) c in
    (
      record s { entries = modify_at s.entries q (λ r. record r { lru_next = b }) },
      ground arith,
      record {
        chain = Seg-set_next s.entries none (x ∷ xs) (some p) b q k d c;
        head = h;
        tail = refl;
        same = SameData-modify_at s.entries q _ (λ e. refl);
        outside = λ o n. modify_at-ne s.entries q o _ λ t. ground (arith, last-mem x q xs k);
      },
    )

-- What the second half leaves: the chain `ys` now follows `a`.
pub record Closed (s s' : Store) (ys : List Ptr) (a : Option Ptr) : Type 0 where
  pub chain : Seg s'.entries a ys none
  pub head : s'.lru_head ≡ s.lru_head
  pub tail : s'.lru_tail ≡ last a ys
  pub same : SameData s.entries s'.entries
  pub outside : (q : Ptr) → mem q ys ≡ false → s'.entries q ≡ s.entries q

-- The branch of an entry that has a successor `y`.
unlink_next-some :
    (s : Store) (p : Ptr) (e : Entry) (y q : Ptr) (r : Entry)
    → s.entries p ≡ some e
    → e.lru_next ≡ some y
    → s.lru_tail ≡ some q
    → (q == p) ≡ false
    → s.entries y ≡ some r
    → unlink_next p s
      ≡ some
          (record s { entries = modify_at s.entries y (λ r. record r { lru_prev = e.lru_prev }) })
unfolding unlink_next
unlink_next-some s p e y q r l nx t n f = rw (l, ◌>>=◌) (rw (nx, t, n, f) refl)

pub unlink_next_lem :
    (s : Store) (p : Ptr) (e : Entry) (ys : List Ptr) (a : Option Ptr)
    → s.entries p ≡ some e
    → e.lru_next ≡ first ys none
    → e.lru_prev ≡ a
    → Distinct ys
    → mem p ys ≡ false
    → Seg s.entries (some p) ys none
    → s.lru_tail ≡ last (some p) ys
    → (s' : Store) × (unlink_next p s ≡ some s') × Closed s s' ys a
unfolding unlink_next
unlink_next_lem s p e [] a l nx pr d m c h = (
  record s { lru_tail = a },
  ground arith,
  record { chain = tt; head = refl; tail = refl; same = λ q. refl; outside = λ q _. refl },
)
unlink_next_lem s p e (y ∷ ys) a l nx pr d m c h =
    let (q, k) = last-cons none y ys in
    let (r, f) = Seg-mem s.entries (some p) (y ∷ ys) none y (ground arith) c in
    (
      record s { entries = modify_at s.entries y (λ r. record r { lru_prev = a }) },
      rw (← pr)
          (unlink_next-some s p e y q r l nx (h ∙ k) (mem-ne p q (y ∷ ys) (last-mem y q ys k) m) f),
      record {
        chain = Seg-set_prev s.entries (some p) a y ys none d.0 c;
        head = refl;
        tail = h;
        same = SameData-modify_at s.entries y _ (λ e. refl);
        outside = λ o n. modify_at-ne s.entries y o _ λ t. ground arith;
      },
    )
