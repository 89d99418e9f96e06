-- ===== src/Monitor/Chain.antt =====
-- A doubly linked list of monitoring connections in memory.
use simple_cache.Base.{
  ◌≡◌, refl, sym, ◌∙◌, ap, true, false, Option, none, some, List, [], ◌∷◌, ◌++◌, ◌==◌, arith, mem,
  mem-ne, Distinct, ==_self, ==_iff, Bool-cases, inl, inr,
}
use mathlib.Core.Option.{some-injective}
use simple_cache.Store.{Ptr}
use simple_cache.Monitor.{Monitored, Monitoreds, change, set_prev, set_next}

-- A connection with its address; `held` has no links.
pub record Cell : Type 0 where
  pub at : Ptr
  pub held : Monitored

abbrev pub node : Cell → Option Ptr → Option Ptr → Monitored
node c a b = record c.held { prev = a; next = b }

abbrev pub first : List Cell → Option Ptr
first [] = none
first (c ∷ cs) = some c.at

abbrev pub last : List Cell → Option Ptr
last [] = none
last (c ∷ []) = some c.at
last (c ∷ x ∷ cs) = last (x ∷ cs)

abbrev pub places : List Cell → List Ptr
places [] = []
places (c ∷ cs) = c.at ∷ places cs

abbrev pub snoc : List Cell → Cell → List Cell
snoc cs c = cs ++ c ∷ []

-- The cells stand in memory, each with pointers to its neighbours; `a` comes before the first.
abbrev pub Chain : Monitoreds → Option Ptr → List Cell → Type 0
Chain h a [] = Unit {0}
Chain h a (c ∷ cs) = (h c.at ≡ some (node c a (first cs))) × Chain h (some c.at) cs

pub change-same :
    (p : Ptr) (f : Monitored → Monitored) (h : Monitoreds) (x : Monitored)
    → h p ≡ some x
    → change p f h p ≡ some (f x)
unfolding change
change-same p f h x e = rw (==_self p, e) refl

pub change-other :
    (p : Ptr) (f : Monitored → Monitored) (h : Monitoreds) (q : Ptr)
    → (p == q) ≡ false
    → change p f h q ≡ h q
unfolding change
change-other p f h q e = rw e refl

pub Chain-frame :
    (h g : Monitoreds) (a : Option Ptr) (cs : List Cell)
    → ((q : Ptr) → mem q (places cs) ≡ true → g q ≡ h q)
    → Chain h a cs
    → Chain g a cs
Chain-frame h g a [] k s = tt
Chain-frame h g a (c ∷ cs) k s =
    (k c.at (ground arith) ∙ s.0, Chain-frame h g (some c.at) cs (λ q m. k q (ground arith)) s.1)

-- A write elsewhere.
pub Chain-outside :
    (h : Monitoreds) (a : Option Ptr) (cs : List Cell) (p : Ptr) (f : Monitored → Monitored)
    → mem p (places cs) ≡ false
    → Chain h a cs
    → Chain (change p f h) a cs
Chain-outside h a cs p f m =
    Chain-frame h (change p f h) a cs
      λ q i. change-other p f h q (ground (arith, mem-ne p q (places cs) i m))

pub last-mem :
    (c : Cell) (cs : List Cell) (t : Ptr) → last (c ∷ cs) ≡ some t → mem t (places (c ∷ cs)) ≡ true
last-mem c [] t e = ground (arith, some-injective c.at t e, ==_self t)
last-mem c (x ∷ cs) t e = ground (arith, last-mem x cs t e)

pub last-some : (c : Cell) (cs : List Cell) → (t : Ptr) × (last (c ∷ cs) ≡ some t)
last-some c [] = (c.at, refl)
last-some c (x ∷ cs) = last-some x cs

pub last-snoc : (cs : List Cell) (n : Cell) → last (snoc cs n) ≡ some n.at
last-snoc [] n = refl
last-snoc (c ∷ []) n = refl
last-snoc (c ∷ x ∷ cs) n = last-snoc (x ∷ cs) n

pub first-snoc : (c : Cell) (cs : List Cell) (n : Cell) → first (snoc (c ∷ cs) n) ≡ some c.at
first-snoc c cs n = refl

pub places-snoc : (cs : List Cell) (n : Cell) → places (snoc cs n) ≡ places cs ++ n.at ∷ []
places-snoc [] n = refl
places-snoc (c ∷ cs) n = ap (λ t. c.at ∷ t) (places-snoc cs n)

pub Chain-mem :
    (h : Monitoreds) (a : Option Ptr) (cs : List Cell) (p : Ptr)
    → mem p (places cs) ≡ true
    → Chain h a cs
    → (x : Monitored) × (h p ≡ some x)
Chain-mem h a [] p m s = cc
Chain-mem h a (c ∷ cs) p m s = elim (Bool-cases (p == c.at)) [
  | inl t ↦ (node c a (first cs), ap h ((==_iff p c.at).0 t) ∙ s.0)
  | inr f ↦ Chain-mem h (some c.at) cs p (ground (arith, m, f)) s.1
]

-- The first cell comes to have another predecessor.
pub Chain-set_prev :
    (h : Monitoreds) (a b : Option Ptr) (c : Cell) (cs : List Cell)
    → mem c.at (places cs) ≡ false
    → Chain h a (c ∷ cs)
    → Chain (change c.at (set_prev b) h) b (c ∷ cs)
Chain-set_prev h a b c cs m s = (
  change-same c.at (set_prev b) h (node c a (first cs)) s.0,
  Chain-outside h (some c.at) cs c.at (set_prev b) m s.1,
)

-- The last cell comes to point to a new one, whose predecessor it is.
pub Chain-snoc :
    (h : Monitoreds) (a : Option Ptr) (c : Cell) (cs : List Cell) (n : Cell) (t : Ptr)
    → last (c ∷ cs) ≡ some t
    → Distinct (places (c ∷ cs))
    → mem n.at (places (c ∷ cs)) ≡ false
    → h n.at ≡ some (node n (some t) none)
    → Chain h a (c ∷ cs)
    → Chain (change t (set_next (some n.at)) h) a (snoc (c ∷ cs) n)
Chain-snoc h a c [] n t l d f k s =
    let e = some-injective c.at t l in
    (
      ap (λ q. change q (set_next (some n.at)) h c.at) (sym e)
          ∙ change-same c.at (set_next (some n.at)) h (node c a none) s.0,
      (
        change-other t (set_next (some n.at)) h n.at (ground (arith, e, f))
            ∙ k
            ∙ ap (λ q. some (node n (some q) none)) (sym e),
        tt,
      ),
    )
Chain-snoc h a c (x ∷ cs) n t l d f k s =
    let other : (t == c.at) ≡ false =
      ground (arith, last-mem x cs t l, d.0, mem-ne c.at t (places (x ∷ cs))) in
    (
      change-other t (set_next (some n.at)) h c.at other ∙ s.0,
      Chain-snoc h (some c.at) x cs n t l d.1 (ground (arith, f)) k s.1,
    )
