-- ===== src/Http/Methods/Bits.antt =====
-- `REQUEST_IS` in terms of single bits.
use simple_cache.Base.{
  ℕ, zero, suc, ◌+◌, ◌/◌, ◌%◌, ◌^◌, ◌<◌, ◌≡◌, refl, ap, ◌∙◌, arith, Bool, true, false, not, ◌&&◌,
  ◌==◌,
}
use simple_cache.Http.Methods.{request_is}

-- whether bit `j` of `x` is set
abbrev pub bit : ℕ → ℕ → Bool
bit j x = x / 2 ^ j % 2 == 1

abbrev eq_bool : Bool → Bool → Bool
eq_bool true q = q
eq_bool false q = not q

eq_bool_sound : (p q : Bool) → eq_bool p q ≡ true → p ≡ q
eq_bool_sound true q h = cc
eq_bool_sound false true h = cc
eq_bool_sound false false h = refl

-- A test of the values from `k` on, `n` of them, by evaluation.
every : (ℕ → Bool) → ℕ → ℕ → Bool
every test k zero = true
every test k (suc n) = elim (test k) [ false ↦ false | true ↦ every test (k + 1) n ]

every-first :
    (test : ℕ → Bool) (k n : ℕ)
    → every test k (suc n) ≡ true
    → (test k ≡ true) × (every test (k + 1) n ≡ true)
unfolding every
every-first test k n h = ground (arith, h)

-- What such a run shows of each value.
every-at : (test : ℕ → Bool) (n k j : ℕ) → every test k n ≡ true → j < n → test (k + j) ≡ true
every-at test zero k j h l = absurd (omega arith)
every-at test (suc n) k zero h l = ap test (omega arith) ∙ (every-first test k n h).0
every-at test (suc n) k (suc j) h l =
    ap test (omega arith) ∙ every-at test n (k + 1) j (every-first test k n h).1 (omega arith)

below : (test : ℕ → Bool) (n x : ℕ) → every test 0 n ≡ true → x < n → test x ≡ true
below test n x h l = ap test (omega arith) ∙ every-at test n 0 x h l

single : every (λ x. every (λ j. eq_bool (request_is x (2 ^ j)) (bit j x)) 0 10) 0 1024 ≡ true
unfolding every request_is
single = refl

abbrev both : ℕ → ℕ → ℕ → Bool
both x i j = eq_bool (request_is x (2 ^ (i + 4) + 2 ^ j)) (bit (i + 4) x && bit j x)

double : every (λ x. every (λ i. every (both x i) 0 4) 0 6) 0 1024 ≡ true
unfolding every request_is
double = refl

-- `REQUEST_IS` of a request's bits, of which there are ten, and a single bit tells whether that bit
-- is set; with a method's bit and a level's bit, whether both are.
pub request_is_lem :
    (x : ℕ)
    → x < 1024
    → ((j : ℕ) → j < 10 → request_is x (2 ^ j) ≡ bit j x)
      × ((i j : ℕ)
          → i < 6
          → j < 4
          → request_is x (2 ^ (i + 4) + 2 ^ j) ≡ (bit (i + 4) x && bit j x))
request_is_lem x h = (
  λ j k. eq_bool_sound _ _ (below _ 10 j (below _ 1024 x single h) k),
  λ i j k l. eq_bool_sound _ _ (below (both x i) 4 j (below _ 6 i (below _ 1024 x double h) k) l),
)
