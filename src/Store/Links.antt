-- ===== src/Store/Links.antt =====
-- Chains of entries through `lru_next` and `lru_prev`.
use simple_cache.Base.{
  ◌≡◌, ◌≢◌, refl, ◌∙◌, ap, subst, Bool, true, false, Option, none, some, List, [], ◌∷◌, ◌++◌, arith,
  ==_self, mem, Distinct, Option-cases, inl, inr,
}
use mathlib.Core.Option
use simple_cache.Store.{Ptr, Entry, Heap, modify_at}

-- what of an entry the list's operations use
pub record Link : Type 0 where
  pub prev : Option Ptr
  pub next : Option Ptr
  pub removed : Bool

abbrev pub link : Option Ptr → Option Ptr → Link
link a b = record { prev = a; next = b; removed = false }

abbrev pub link_of : Entry → Link
link_of e = record { prev = e.lru_prev; next = e.lru_next; removed = e.lru_removed }

abbrev pub links : Option Entry → Option Link
links = Option.map link_of

abbrev pub first : List Ptr → Option Ptr → Option Ptr
first [] b = b
first (p ∷ ps) b = some p

abbrev pub last : Option Ptr → List Ptr → Option Ptr
last a [] = a
last a (p ∷ ps) = last (some p) ps

-- The entries `ps` are linked in this order, the first to `a` and the last to `b`.
abbrev pub Seg : Heap → Option Ptr → List Ptr → Option Ptr → Type 0
Seg h a [] b = Unit {0}
Seg h a (p ∷ ps) b = (links (h p) ≡ some (link a (first ps b))) × Seg h (some p) ps b

pub first-append : (xs ys : List Ptr) (b : Option Ptr) → first (xs ++ ys) b ≡ first xs (first ys b)
first-append [] ys b = refl
first-append (x ∷ xs) ys b = refl

pub last-append : (a : Option Ptr) (xs ys : List Ptr) → last a (xs ++ ys) ≡ last (last a xs) ys
last-append a [] ys = refl
last-append a (x ∷ xs) ys = last-append (some x) xs ys

pub Seg-append :
    (h : Heap) (a : Option Ptr) (xs ys : List Ptr) (b : Option Ptr)
    → Seg h a xs (first ys b)
    → Seg h (last a xs) ys b
    → Seg h a (xs ++ ys) b
Seg-append h a [] ys b s t = t
Seg-append h a (x ∷ xs) ys b s t =
    (rw (first-append xs ys b) s.0, Seg-append h (some x) xs ys b s.1 t)

pub Seg-split :
    (h : Heap) (a : Option Ptr) (xs ys : List Ptr) (b : Option Ptr)
    → Seg h a (xs ++ ys) b
    → Seg h a xs (first ys b) × Seg h (last a xs) ys b
Seg-split h a [] ys b s = (tt, s)
Seg-split h a (x ∷ xs) ys b s =
    let r = Seg-split h (some x) xs ys b s.1 in ((rw (first-append xs ys b) at s.0, r.0), r.1)

pub modify_at-some :
    (h : Heap) (p : Ptr) (f : Entry → Entry) (e : Entry)
    → h p ≡ some e
    → modify_at h p f p ≡ some (f e)
unfolding modify_at
modify_at-some h p f e k = rw (==_self p, k) refl

-- A chain stays where its own entries stay.
pub Seg-frame :
    (h g : Heap) (a : Option Ptr) (ps : List Ptr) (b : Option Ptr)
    → ((q : Ptr) → mem q ps ≡ true → g q ≡ h q)
    → Seg h a ps b
    → Seg g a ps b
Seg-frame h g a [] b k s = tt
Seg-frame h g a (p ∷ ps) b k s =
    (rw (k p (ground arith)) s.0, Seg-frame h g (some p) ps b (λ q m. k q (ground arith)) s.1)

pub modify_at-ne : (h : Heap) (q p : Ptr) (f : Entry → Entry) → p ≢ q → modify_at h q f p ≡ h p
unfolding modify_at
modify_at-ne h q p f n = ground arith

-- A change elsewhere leaves a chain alone.
pub Seg-outside :
    (h : Heap) (a : Option Ptr) (ps : List Ptr) (b : Option Ptr) (q : Ptr) (f : Entry → Entry)
    → mem q ps ≡ false
    → Seg h a ps b
    → Seg (modify_at h q f) a ps b
unfolding modify_at
Seg-outside h a [] b q f m s = tt
Seg-outside h a (p ∷ ps) b q f m s =
    (ground arith, Seg-outside h (some p) ps b q f (ground arith) s.1)

-- The link of a changed entry.
pub links-modify_at :
    (h : Heap) (q : Ptr) (f : Entry → Entry) (g : Link → Link)
    → ((e : Entry) → link_of (f e) ≡ g (link_of e))
    → links (modify_at h q f q) ≡ Option.map g (links (h q))
unfolding modify_at
links-modify_at h q f g k = elim (Option-cases (h q)) [
  | inl e ↦ ground arith
  | inr (r, e) ↦ ground (arith, k r)
]

-- Relinking the first entry of a chain.
pub Seg-set_prev :
    (h : Heap) (a a' : Option Ptr) (q : Ptr) (ps : List Ptr) (b : Option Ptr)
    → mem q ps ≡ false
    → Seg h a (q ∷ ps) b
    → Seg (modify_at h q (λ r. record r { lru_prev = a' })) a' (q ∷ ps) b
Seg-set_prev h a a' q ps b m s = (
  links-modify_at h q _ (λ l. record l { prev = a' }) (λ e. refl)
      ∙ ap (Option.map (λ (l : Link). record l { prev = a' })) s.0,
  Seg-outside h (some q) ps b q _ m s.1,
)

pub last-mem : (r q : Ptr) (ps : List Ptr) → last (some r) ps ≡ some q → mem q (r ∷ ps) ≡ true
last-mem r q [] e = ground arith
last-mem r q (p ∷ ps) e = ground (arith, last-mem p q ps e)

-- Relinking the last one.
pub Seg-set_next :
    (h : Heap) (a : Option Ptr) (ps : List Ptr) (b b' : Option Ptr) (q : Ptr)
    → last none ps ≡ some q
    → Distinct ps
    → Seg h a ps b
    → Seg (modify_at h q (λ r. record r { lru_next = b' })) a ps b'
Seg-set_next h a [] b b' q e d s = tt
Seg-set_next h a (p ∷ []) b b' q e d s =
    subst (λ k. Seg (modify_at h k (λ r. record r { lru_next = b' })) a (p ∷ []) b') (ground arith)
      (
        links-modify_at h p _ (λ l. record l { next = b' }) (λ e. refl)
            ∙ ap (Option.map (λ (l : Link). record l { next = b' })) s.0,
        tt,
      )
Seg-set_next h a (p ∷ r ∷ ps) b b' q e d s = (
  rw (modify_at-ne h q p _ λ k. ground (arith, last-mem r q ps e)) s.0,
  Seg-set_next h (some p) (r ∷ ps) b b' q e d.1 s.1,
)
