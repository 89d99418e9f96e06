-- ===== src/Base/Lists.antt =====
-- Lists measured and indexed by native numbers, under the library's names.
use Prim.Native.Nat.{ℕ, zero, suc, ◌+◌}
use mathlib.Core.Path.{◌≡◌, refl, sym, ◌∙◌, ap}
use mathlib.Core.Bool.{Bool, true, false, ◌||◌, false≢true}
use simple_cache.Base.Tests.{◌==◌, ==_ne}
use mathlib.Core.List.{List, [], ◌∷◌, ◌++◌}
use native.Mathlib.Omega.{arith}

module _ {ℓ} {A : Type ℓ} where
  abbrev pub length : List A → ℕ
  length [] = 0
  length (x ∷ xs) = suc (length xs)

  abbrev pub take : ℕ → List A → List A
  take zero xs = []
  take (suc n) [] = []
  take (suc n) (x ∷ xs) = x ∷ take n xs

  abbrev pub drop : ℕ → List A → List A
  drop zero xs = xs
  drop (suc n) [] = []
  drop (suc n) (x ∷ xs) = drop n xs

  pub length-append : (xs ys : List A) → length (xs ++ ys) ≡ length xs + length ys
  length-append [] ys = omega arith
  length-append (x ∷ xs) ys = omega (arith, length-append xs ys)

  pub take-append : (xs ys : List A) → take (length xs) (xs ++ ys) ≡ xs
  take-append [] ys = refl
  take-append (x ∷ xs) ys = ap (λ t. x ∷ t) (take-append xs ys)

-- Membership and distinctness of numbers, as tests and by recursion.
abbrev pub mem : ℕ → List ℕ → Bool
mem p [] = false
mem p (q ∷ qs) = (p == q) || mem p qs

abbrev pub Distinct : List ℕ → Type 0
Distinct [] = Unit {0}
Distinct (p ∷ ps) = (mem p ps ≡ false) × Distinct ps

pub mem-append : (p : ℕ) (xs ys : List ℕ) → mem p (xs ++ ys) ≡ (mem p xs || mem p ys)
mem-append p [] ys = refl
mem-append p (x ∷ xs) ys = ground (arith, mem-append p xs ys)

pub Distinct-append :
    (xs ys : List ℕ)
    → Distinct xs
    → Distinct ys
    → ((p : ℕ) → mem p xs ≡ true → mem p ys ≡ false)
    → Distinct (xs ++ ys)
Distinct-append [] ys d e h = e
Distinct-append (x ∷ xs) ys d e h = (
  ground (arith, mem-append x xs ys, h x),
  Distinct-append xs ys d.1 e (λ p m. ground (arith, h p)),
)

-- What a list that is split in the middle has apart.
pub Distinct-split :
    (xs : List ℕ) (p : ℕ) (ys : List ℕ)
    → Distinct (xs ++ p ∷ ys)
    → (mem p xs ≡ false)
      × (mem p ys ≡ false)
      × Distinct xs
      × Distinct ys
      × ((q : ℕ) → mem q xs ≡ true → mem q ys ≡ false)
Distinct-split [] p ys d = (refl, d.0, tt, d.1, λ q m. cc)
Distinct-split (x ∷ xs) p ys d =
    let r = Distinct-split xs p ys d.1 in
    (
      ground (arith, mem-append x xs (p ∷ ys)),
      r.1,
      (ground (arith, mem-append x xs (p ∷ ys)), r.2),
      r.3,
      λ q m. ground (arith, mem-append x xs (p ∷ ys), r.4 q),
    )

pub mem-ne : (p q : ℕ) (xs : List ℕ) → mem q xs ≡ true → mem p xs ≡ false → (q == p) ≡ false
mem-ne p q xs i o = ==_ne q p λ e. false≢true (sym o ∙ (rw e at i))

pub not-mem-split :
    (q : ℕ) (xs : List ℕ) (p : ℕ) (ys : List ℕ)
    → mem q (xs ++ p ∷ ys) ≡ false
    → (mem q xs ≡ false) × ((q == p) ≡ false) × (mem q ys ≡ false)
not-mem-split q xs p ys n =
    let e = mem-append q xs (p ∷ ys) in (ground arith, ground arith, ground arith)
