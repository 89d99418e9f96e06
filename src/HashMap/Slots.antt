-- ===== src/HashMap/Slots.antt =====
-- A small hash table that behaves as the library documents: its places are those of a list of keys
-- and values.
use simple_cache.Base.{
  ℕ, zero, suc, ◌+◌, ◌≡◌, ◌≢◌, refl, ap, true, false, Option, none, some, List, [], ◌∷◌, ◌==◌,
  if◌then◌else◌, ==_self, ==_ne, length, mem, Distinct, arith, sym, ap₂, ◌∙◌, inl, inr, Bool-cases,
  ==_iff,
}
use mathlib.Core.Option.{some-injective}
use simple_cache.HashMap.{KHash, IsMap}

abbrev Pairs : Type 0
Pairs = List (ℕ × ℕ)

abbrev keys : Pairs → List ℕ
keys [] = []
keys (x ∷ xs) = x.0 ∷ keys xs

abbrev place : Pairs → ℕ → ℕ
place [] h = 0
place (x ∷ xs) h = if x.0 == h then 0 else suc (place xs h)

abbrev at_place : Pairs → ℕ → Option (ℕ × ℕ)
at_place [] i = none
at_place (x ∷ xs) zero = some x
at_place (x ∷ xs) (suc i) = at_place xs i

abbrev value_at : Pairs → ℕ → Option ℕ
value_at xs i = elim (at_place xs i) [ none ↦ none | some x ↦ some x.1 ]

abbrev remove : ℕ → Pairs → Pairs
remove h [] = []
remove h (x ∷ xs) = if x.0 == h then remove h xs else x ∷ remove h xs

abbrev remove_at : ℕ → Pairs → Pairs
remove_at i xs = elim (at_place xs i) [ none ↦ xs | some x ↦ remove x.0 xs ]

mem-remove : (h g : ℕ) (xs : Pairs) → mem g (keys xs) ≡ false → mem g (keys (remove h xs)) ≡ false
mem-remove h g [] m = refl
mem-remove h g (x ∷ xs) m = ground (arith, mem-remove h g xs)

pub mem-remove_same : (h : ℕ) (xs : Pairs) → mem h (keys (remove h xs)) ≡ false
mem-remove_same h [] = refl
mem-remove_same h (x ∷ xs) = ground (arith, mem-remove_same h xs)

pub remove-Distinct : (h : ℕ) (xs : Pairs) → Distinct (keys xs) → Distinct (keys (remove h xs))
remove-Distinct h [] d = tt
remove-Distinct h (x ∷ xs) d = ground (arith, mem-remove h x.0 xs, remove-Distinct h xs d.1)

pub remove_at-Distinct :
    (i : ℕ) (xs : Pairs) → Distinct (keys xs) → Distinct (keys (remove_at i xs))
remove_at-Distinct i xs d = by_case (at_place xs i)
  where
    by_case : (o : Option (ℕ × ℕ)) → Distinct (keys (elim o [ none ↦ xs | some x ↦ remove x.0 xs ]))
    by_case none = d
    by_case (some x) = remove-Distinct x.0 xs d

-- Looking up by key.
abbrev look : Pairs → ℕ → Option ℕ
look [] h = none
look (x ∷ xs) h = if x.0 == h then some x.1 else look xs h

abbrev find_in : Pairs → ℕ → Option ℕ
find_in xs h = if place xs h == length xs then none else value_at xs (place xs h)

find_in-look : (xs : Pairs) (h : ℕ) → find_in xs h ≡ look xs h
find_in-look [] h = refl
find_in-look (x ∷ xs) h = ground (arith, find_in-look xs h)

look-remove_same : (xs : Pairs) (h : ℕ) → look (remove h xs) h ≡ none
look-remove_same [] h = refl
look-remove_same (x ∷ xs) h = ground (arith, look-remove_same xs h)

look-remove_other : (xs : Pairs) (h g : ℕ) → g ≢ h → look (remove h xs) g ≡ look xs g
look-remove_other [] h g n = refl
look-remove_other (x ∷ xs) h g n = ground (arith, look-remove_other xs h g n)

look-none : (xs : Pairs) (h : ℕ) → mem h (keys xs) ≡ false → look xs h ≡ none
look-none [] h m = refl
look-none (x ∷ xs) h m = ground (arith, look-none xs h)

remove-absent : (xs : Pairs) (h : ℕ) → look xs h ≡ none → remove h xs ≡ xs
remove-absent [] h e = refl
remove-absent (x ∷ xs) h e = ground (arith, remove-absent xs h)

length-remove :
    (xs : Pairs) (h v : ℕ)
    → Distinct (keys xs)
    → look xs h ≡ some v
    → length (remove h xs) + 1 ≡ length xs
length-remove [] h v d e = cc
length-remove (x ∷ xs) h v d e = elim (Bool-cases (x.0 == h)) [
  | inl k ↦ rw k (omega (arith, ap length (remove-absent xs h (look-none xs h (here k)))))
  | inr k ↦ rw k (omega (arith, length-remove xs h v d.1 (rw k at e)))
]
  where
    here : (x.0 == h) ≡ true → mem h (keys xs) ≡ false
    here k = ground (arith, d.0)

at_place-place :
    (xs : Pairs) (h v : ℕ) → look xs h ≡ some v → at_place xs (place xs h) ≡ some (h, v)
at_place-place [] h v e = cc
at_place-place (x ∷ xs) h v e = elim (Bool-cases (x.0 == h)) [
  | inl k ↦
      rw k
        (ap some (ap₂ (λ (a b : ℕ). (a, b)) ((==_iff x.0 h).0 k) (some-injective _ _ (rw k at e))))
  | inr k ↦ rw k (at_place-place xs h v (rw k at e))
]

remove_at-place :
    (xs : Pairs) (h v : ℕ) → look xs h ≡ some v → remove_at (place xs h) xs ≡ remove h xs
remove_at-place xs h v e = rw (remove_at, at_place-place xs h v e) refl

unfoldable pub slots : KHash
slots = record {
  Map = (xs : Pairs) × Distinct (keys xs);
  init = ([], tt);
  end = λ m. length m.0;
  get = λ m h. place m.0 h;
  value = λ m i. value_at m.0 i;
  put = λ m h v. ((h, v) ∷ remove h m.0, (mem-remove_same h m.0, remove-Distinct h m.0 m.1));
  del = λ m i. (remove_at i m.0, remove_at-Distinct i m.0 m.1);
  size = λ m. length m.0;
}

look-find :
    (m : (xs : Pairs) × Distinct (keys xs)) (h v : ℕ) → find_in m.0 h ≡ some v → look m.0 h ≡ some v
look-find m h v e = sym (find_in-look m.0 h) ∙ e

-- The behaviour that the interface asks for.
pub slots-IsMap : IsMap slots
unfolding slots
slots-IsMap = record {
  find-init = λ h. refl;
  find-put_same = λ m h v. find_in-look ((h, v) ∷ remove h m.0) h ∙ rw (==_self h) refl;
  find-put_other = λ m h v g n.
      find_in-look ((h, v) ∷ remove h m.0) g
      ∙ (rw (==_ne h g (λ e. n (sym e))) (look-remove_other m.0 h g n))
      ∙ sym (find_in-look m.0 g);
  find-del_same = λ m h v e.
      ap (λ t. find_in t h) (remove_at-place m.0 h v (look-find m h v e))
      ∙ find_in-look (remove h m.0) h
      ∙ look-remove_same m.0 h;
  find-del_other = λ m h v g e n.
      ap (λ t. find_in t g) (remove_at-place m.0 h v (look-find m h v e))
      ∙ find_in-look (remove h m.0) g
      ∙ look-remove_other m.0 h g n
      ∙ sym (find_in-look m.0 g);
  size-init = refl;
  size-put_new =
      λ m h v e. omega (arith, ap length (remove-absent m.0 h (sym (find_in-look m.0 h) ∙ e)));
  size-del = λ m h v e.
      ap (λ t. length t + 1) (remove_at-place m.0 h v (look-find m h v e))
      ∙ length-remove m.0 h v m.1 (look-find m h v e);
}
