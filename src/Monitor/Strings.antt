-- ===== src/Monitor/Strings.antt =====
-- The counts that monitoring connections are sent: `itoa` of src/core/http_parse_mon.cpp.
use simple_cache.Base.{
  ℕ, zero, suc, ◌+◌, ◌-◌, ◌*◌, ◌/◌, ◌%◌, ◌^◌, ◌≤◌, ◌<◌, ◌≡◌, refl, sym, ◌∙◌, ap, ap₂, arith, true,
  false, List, [], ◌∷◌, ◌++◌, append_assoc, length, length-append, ◌⊎◌, ltb, ℤ, pos, negsuc,
  Bool-cases, inl, inr, append-nil,
}
use native.Mathlib.Nat.{pow-suc}
use simple_cache.Base.Printed.{first_fuel}
use simple_cache.Base.Decimal.{digits, decimal, signed_decimal}

-- The digits of a positive number in reverse order, at least one; an `int` has 10 at most.
unfoldable pub digits_reversed : ℕ → ℕ → List ℕ
digits_reversed zero n = []
digits_reversed (suc fuel) n =
    (b'0' + n % 10) ∷ elim (ltb 0 (n / 10)) [ true ↦ digits_reversed fuel (n / 10) | false ↦ [] ]

-- `s[i]` and `s[i] = c`
abbrev pub at : List ℕ → ℕ → ℕ
at [] i = 0
at (x ∷ xs) zero = x
at (x ∷ xs) (suc i) = at xs i

abbrev pub set : ℕ → ℕ → List ℕ → List ℕ
set i c [] = []
set zero c (x ∷ xs) = c ∷ xs
set (suc i) c (x ∷ xs) = x ∷ set i c xs

-- The loop of `reverse`, `rounds` at most.
unfoldable pub swaps : ℕ → ℕ → ℕ → List ℕ → List ℕ
swaps zero i j s = s
swaps (suc rounds) i j s = elim (ltb i j) [
  | true ↦ swaps rounds (i + 1) (j - 1) (set j (at s i) (set i (at s j) s))
  | false ↦ s
]

-- `reverse`, in as many rounds as there are characters. For the empty string `j` is 0 here, not -1;
-- there is no round either way.
unfoldable pub reverse : List ℕ → List ℕ
unfolding swaps
reverse s = swaps (length s) 0 (length s - 1) s

-- `itoa`
unfoldable pub itoa : ℤ → List ℕ
itoa (pos n) = reverse (digits_reversed 10 n)
itoa (negsuc n) = reverse (digits_reversed 10 (n + 1) ++ b'-' ∷ [])

-- An element of `monitoring_strings` as `monitoring_init` leaves it, up to the length in
-- `monitoring_lens`.
unfoldable pub monitoring_string : ℕ → List ℕ
monitoring_string i = itoa (pos i) ++ 10 ∷ []

-- The characters in the opposite order.
unfoldable pub backwards : List ℕ → List ℕ
backwards [] = []
backwards (c ∷ cs) = backwards cs ++ c ∷ []

backwards-append : (xs : List ℕ) (c : ℕ) → backwards (xs ++ c ∷ []) ≡ c ∷ backwards xs
unfolding backwards
backwards-append [] c = refl
backwards-append (x ∷ xs) c = ap (λ t. t ++ x ∷ []) (backwards-append xs c)

at-middle : (xs ys : List ℕ) (c : ℕ) → at (xs ++ c ∷ ys) (length xs) ≡ c
at-middle [] ys c = refl
at-middle (x ∷ xs) ys c = at-middle xs ys c

set-middle : (xs ys : List ℕ) (c b : ℕ) → set (length xs) b (xs ++ c ∷ ys) ≡ xs ++ b ∷ ys
set-middle [] ys c b = refl
set-middle (x ∷ xs) ys c b = ap (λ t. x ∷ t) (set-middle xs ys c b)

-- A string is empty, or has a last character.
last_of : (xs : List ℕ) → (xs ≡ []) ⊎ ((ys : List ℕ) × (c : ℕ) × (xs ≡ ys ++ c ∷ []))
last_of [] = inl refl
last_of (x ∷ xs) = elim (last_of xs) [
  | inl e ↦ inr ([], x, ap (λ t. x ∷ t) e)
  | inr r ↦ inr (x ∷ r.0, r.1, ap (λ t. x ∷ t) r.2)
]

module _ (p m q : List ℕ) (a y : ℕ) (j : ℕ) (e : j ≡ length p + length m + 1) where
  size : j ≡ length (p ++ a ∷ m)
  size = omega (arith, e, length-append p (a ∷ m))

  at-end : at (p ++ a ∷ (m ++ y ∷ q)) j ≡ y
  at-end =
      ap (at (p ++ a ∷ (m ++ y ∷ q))) size
      ∙ ap (λ t. at t (length (p ++ a ∷ m))) (sym (append_assoc p (a ∷ m) (y ∷ q)))
      ∙ at-middle (p ++ a ∷ m) q y

  set-end : (x : ℕ) → set j x (p ++ a ∷ (m ++ y ∷ q)) ≡ p ++ a ∷ (m ++ x ∷ q)
  set-end x =
      ap (λ k. set k x (p ++ a ∷ (m ++ y ∷ q))) size
      ∙ ap (set (length (p ++ a ∷ m)) x) (sym (append_assoc p (a ∷ m) (y ∷ q)))
      ∙ set-middle (p ++ a ∷ m) q y x
      ∙ append_assoc p (a ∷ m) (x ∷ q)

-- One round swaps the ends of what is left.
swap_ends :
    (p m q : List ℕ) (x y j : ℕ)
    → j ≡ length p + length m + 1
    → set j
        (at (p ++ x ∷ (m ++ y ∷ q)) (length p))
        (set (length p) (at (p ++ x ∷ (m ++ y ∷ q)) j) (p ++ x ∷ (m ++ y ∷ q)))
      ≡ p ++ y ∷ (m ++ x ∷ q)
swap_ends p m q x y j e =
    let s = p ++ x ∷ (m ++ y ∷ q) in
    ap (λ c. set j c (set (length p) (at s j) s)) (at-middle p (m ++ y ∷ q) x)
    ∙ ap (λ b. set j x (set (length p) b s)) (at-end p m q x y j e)
    ∙ ap (set j x) (set-middle p (m ++ y ∷ q) x y)
    ∙ set-end p m q y y j e x

swaps_round :
    (rounds : ℕ) (p ys q : List ℕ) (x y : ℕ)
    → (swaps rounds
          (length (p ++ y ∷ []))
          (length (p ++ y ∷ []) + length ys - 1)
          ((p ++ y ∷ []) ++ (ys ++ x ∷ q))
        ≡ (p ++ y ∷ []) ++ (backwards ys ++ x ∷ q))
    → swaps (suc rounds) (length p) (length p + length ys + 1) (p ++ x ∷ (ys ++ y ∷ q))
      ≡ p ++ y ∷ (backwards ys ++ x ∷ q)
unfolding swaps
swaps_round rounds p ys q x y rest =
    let i : length p + 1 ≡ length (p ++ y ∷ []) = omega (arith, length-append p (y ∷ [])) in
    let j : length p + length ys + 1 - 1 ≡ length (p ++ y ∷ []) + length ys - 1 =
      omega (arith, length-append p (y ∷ [])) in
    rw (swaps, more)
      (ap (swaps rounds (length p + 1) (length p + length ys + 1 - 1))
          (swap_ends p ys q x y (length p + length ys + 1) refl)
        ∙ ap (λ k. swaps rounds k (length p + length ys + 1 - 1) (p ++ y ∷ (ys ++ x ∷ q))) i
        ∙ ap (λ k. swaps rounds (length (p ++ y ∷ [])) k (p ++ y ∷ (ys ++ x ∷ q))) j
        ∙ ap (swaps rounds (length (p ++ y ∷ [])) (length (p ++ y ∷ []) + length ys - 1))
            (sym (append_assoc p (y ∷ []) (ys ++ x ∷ q)))
        ∙ rest
        ∙ append_assoc p (y ∷ []) (backwards ys ++ x ∷ q))
  where
    more : ltb (length p) (length p + length ys + 1) ≡ true
    more = ground arith

-- With enough rounds left, what is between `i` and `j` is reversed.
swaps_lem :
    (rounds : ℕ) (p m q : List ℕ) (j : ℕ)
    → length m ≤ rounds
    → j ≡ length p + length m - 1
    → swaps rounds (length p) j (p ++ (m ++ q)) ≡ p ++ (backwards m ++ q)
unfolding swaps backwards
swaps_lem zero p [] q j h e = refl
swaps_lem zero p (x ∷ m) q j h e = absurd (omega arith)
swaps_lem (suc rounds) p [] q j h e = rw (swaps, none_left) refl
  where
    none_left : ltb (length p) j ≡ false
    none_left = ground (arith, e)
swaps_lem (suc rounds) p (x ∷ m) q j h e = elim (last_of m) [
  | inl z ↦
      let none_left : ltb (length p) j ≡ false = ground (arith, e, ap length z) in
      rw (swaps, none_left)
        (ap (λ t. p ++ x ∷ (t ++ q)) z ∙ ap (λ t. p ++ ((backwards t ++ x ∷ []) ++ q)) (sym z))
  | inr r ↦
      let len : length m ≡ length r.0 + 1 =
        ap length r.2 ∙ length-append r.0 (r.1 ∷ []) ∙ omega arith in
      ap₂ (λ k t. swaps (suc rounds) (length p) k (p ++ x ∷ t)) {y = length p + length r.0 + 1}
        (omega (arith, e, len)) (ap (λ t. t ++ q) r.2 ∙ append_assoc r.0 (r.1 ∷ []) q)
      ∙ swaps_round rounds p r.0 q x r.1
          (swaps_lem rounds (p ++ r.1 ∷ []) r.0 (x ∷ q) _ (omega (arith, h, len)) refl)
      ∙ ap (λ t. p ++ t)
          (sym (
            append_assoc (backwards m) (x ∷ []) q
            ∙ ap (λ t. t ++ x ∷ q) (ap backwards r.2 ∙ backwards-append r.0 r.1)))
]

reverse_lem : (s : List ℕ) → reverse s ≡ backwards s
unfolding reverse
reverse_lem s =
    ap (swaps (length s) 0 (length s - 1)) (sym (append-nil s))
    ∙ swaps_lem (length s) [] s [] (length s - 1) (omega arith) (omega arith)
    ∙ append-nil (backwards s)

-- The reversed digits before `rest` are those that `digits` puts there, if the fuel is enough for both.
digits-digits_reversed :
    (f g n : ℕ) (rest : List ℕ)
    → n < 10 ^ f
    → 1 ≤ f
    → f ≤ g
    → digits g n rest ≡ backwards (digits_reversed f n) ++ rest
unfolding digits digits_reversed backwards
digits-digits_reversed zero g n rest l o k = absurd (omega arith)
digits-digits_reversed (suc f) zero n rest l o k = absurd (omega arith)
digits-digits_reversed (suc f) (suc g) n rest l o k = elim (Bool-cases (ltb n 10)) [
  | inl t ↦
      let z : ltb 0 (n / 10) ≡ false = ground arith in
      let small : n < 10 = ground arith in
      let q : n % 10 ≡ n = omega (arith, small) in
      rw (digits, t) (rw (digits_reversed, z) (ap (λ d. (b'0' + d) ∷ rest) (sym q)))
  | inr t ↦
      let z : ltb 0 (n / 10) ≡ true = ground arith in
      let h : n < 10 ^ f * 10 = rw pow-suc at l in
      rw (digits, t)
        (rw (digits_reversed, z)
          (digits-digits_reversed f g (n / 10) ((b'0' + n % 10) ∷ rest) (omega (arith, h))
              (first_fuel f n l (ground arith)) (omega arith)
            ∙ sym (
                append_assoc (backwards (digits_reversed f (n / 10))) ((b'0' + n % 10) ∷ []) rest)))
]

-- An `int` other than the least one.
abbrev pub IsSmall : ℤ → Type 0
IsSmall (pos n) = n < 2 ^ 31
IsSmall (negsuc n) = n + 1 < 2 ^ 31

-- `itoa` gives the same digits as `%d`, the sign included, for an `int` other than the least one.
pub itoa_lem : (z : ℤ) → IsSmall z → itoa z ≡ signed_decimal z
unfolding itoa signed_decimal decimal
itoa_lem (pos n) l =
    reverse_lem (digits_reversed 10 n)
    ∙ sym (append-nil (backwards (digits_reversed 10 n)))
    ∙ sym (digits-digits_reversed 10 20 n [] (omega arith) (omega arith) (omega arith))
itoa_lem (negsuc n) l =
    reverse_lem (digits_reversed 10 (n + 1) ++ b'-' ∷ [])
    ∙ backwards-append (digits_reversed 10 (n + 1)) b'-'
    ∙ ap (λ t. b'-' ∷ t)
        (sym (append-nil (backwards (digits_reversed 10 (n + 1))))
          ∙ sym (digits-digits_reversed 10 20 (n + 1) [] (omega arith) (omega arith) (omega arith)))
