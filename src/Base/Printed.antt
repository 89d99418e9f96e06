-- ===== src/Base/Printed.antt =====
-- Numbers and words that were printed are read back.
use native.Mathlib.Nat.{pow-suc}
use simple_cache.Base.{
  ℕ, zero, suc, ◌+◌, ◌-◌, ◌*◌, ◌/◌, ◌%◌, ◌^◌, ◌≤◌, ◌<◌, ◌≡◌, refl, ◌∙◌, ap, arith, Bool, true,
  false, some, List, [], ◌∷◌, ◌++◌, ltb, ◌==◌, ℤ, pos, negsuc, ◌>>=◌, Bool-cases, inl, inr,
}
use mathlib.Core.Option.{none-ne-some}
use simple_cache.Base.Decimal.{digits, decimal, signed_decimal, int_of}
use simple_cache.Base.Scan.{
  is_space, is_digit, skip_space, word, scan_word, more_digits, magnitude, unsigned, signed,
  after_space, scan_unsigned, scan_signed,
}

digits-append :
    (fuel n : ℕ) (rest tail : List ℕ) → digits fuel n rest ++ tail ≡ digits fuel n (rest ++ tail)
unfolding digits
digits-append zero n rest tail = refl
digits-append (suc fuel) n rest tail = elim (Bool-cases (ltb n 10)) [
  | inl t ↦ rw (digits, t) refl
  | inr f ↦ rw (digits, f) (digits-append fuel (n / 10) ((b'0' + n % 10) ∷ rest) tail)
]

-- The loop of the reader takes up the last digit where the printer put it.
more_digits-last :
    (n : ℕ) (rest : List ℕ) → more_digits (n / 10) ((b'0' + n % 10) ∷ rest) ≡ more_digits n rest
unfolding more_digits
more_digits-last n rest =
    let d : is_digit (b'0' + n % 10) ≡ true = ground arith in
    let q : (n / 10) * 10 + (b'0' + n % 10 - b'0') ≡ n = omega arith in
    rw (more_digits, d) (ap (λ k. more_digits k rest) q)

-- A number of two digits takes two rounds.
pub first_fuel : (fuel n : ℕ) → n < 10 ^ suc fuel → 10 ≤ n → 1 ≤ fuel
first_fuel zero n l t = absurd (omega arith)
first_fuel (suc fuel) n l t = omega arith

pub magnitude-digits :
    (fuel n : ℕ) (rest : List ℕ)
    → 1 ≤ fuel
    → n < 10 ^ fuel
    → magnitude (digits fuel n rest) ≡ some (more_digits n rest)
unfolding digits magnitude
magnitude-digits zero n rest f l = absurd (omega arith)
magnitude-digits (suc fuel) n rest f l = elim (Bool-cases (ltb n 10)) [
  | inl t ↦
      let d : is_digit (b'0' + n) ≡ true = ground arith in
      let q : b'0' + n - b'0' ≡ n = omega arith in
      rw (digits, t) (rw (magnitude, d) (ap (λ k. some (more_digits k rest)) q))
  | inr t ↦
      let big : n < 10 ^ fuel * 10 = rw pow-suc at l in
      let one : 1 ≤ fuel = first_fuel fuel n l (ground arith) in
      rw (digits, t)
        (magnitude-digits fuel (n / 10) ((b'0' + n % 10) ∷ rest) one (omega (arith, big))
          ∙ ap some (more_digits-last n rest))
]

-- A number begins with a digit, before which no white space is skipped.
pub after_space-magnitude :
    (conv : Bool → ℕ → ℕ) (t : List ℕ) (x : ℕ × List ℕ)
    → magnitude t ≡ some x
    → after_space conv (skip_space t) ≡ some (conv false x.0, x.1)
unfolding magnitude after_space skip_space
after_space-magnitude conv [] x e = absurd (none-ne-some _ e)
after_space-magnitude conv (c ∷ cs) x e = elim (Bool-cases (is_digit c)) [
  | inl d ↦
      let s : is_space c ≡ false = ground arith in
      let m : (c == b'-') ≡ false = ground arith in
      let p : (c == b'+') ≡ false = ground arith in
      rw (skip_space, s) (rw (after_space, m) (rw p (rw (e, ◌>>=◌) refl)))
  | inr d ↦ absurd (none-ne-some _ (rw (magnitude, d) at e))
]

-- A number before a byte that is no digit.
magnitude-decimal :
    (n : ℕ) (cs : List ℕ) → n < 10 ^ 20 → magnitude (decimal n ++ b':' ∷ cs) ≡ some (n, b':' ∷ cs)
unfolding decimal more_digits
magnitude-decimal n cs l =
    ap magnitude (digits-append 20 n [] (b':' ∷ cs))
    ∙ magnitude-digits 20 n (b':' ∷ cs) (omega arith) l

pub scan_unsigned-decimal :
    (n : ℕ) (cs : List ℕ)
    → n < 2 ^ 32
    → scan_unsigned (decimal n ++ b':' ∷ cs) ≡ some (n, b':' ∷ cs)
unfolding scan_unsigned
scan_unsigned-decimal n cs l =
    after_space-magnitude unsigned (decimal n ++ b':' ∷ cs) _ (magnitude-decimal n cs (omega arith))
    ∙ ap (λ k. some (k, b':' ∷ cs)) (ground arith)

-- An `int` in 32 bits.
abbrev pub word_of : ℤ → ℕ
word_of (pos n) = n
word_of (negsuc n) = 2 ^ 32 - 1 - n

abbrev pub IsInt : ℤ → Type 0
IsInt (pos n) = n < 2 ^ 31
IsInt (negsuc n) = n < 2 ^ 31

pub int_of-word_of : (z : ℤ) → IsInt z → int_of (word_of z) ≡ z
int_of-word_of (pos n) h = ground arith
int_of-word_of (negsuc n) h = ground arith

pub scan_signed-signed_decimal :
    (z : ℤ) (cs : List ℕ)
    → IsInt z
    → scan_signed (signed_decimal z ++ b':' ∷ cs) ≡ some (word_of z, b':' ∷ cs)
unfolding scan_signed signed_decimal skip_space after_space
scan_signed-signed_decimal (pos n) cs l =
    after_space-magnitude signed (decimal n ++ b':' ∷ cs) _ (magnitude-decimal n cs (omega arith))
    ∙ ap (λ k. some (k, b':' ∷ cs)) (ground arith)
scan_signed-signed_decimal (negsuc n) cs l =
    rw (magnitude-decimal (n + 1) cs (omega arith)) (ap (λ k. some (k, b':' ∷ cs)) (ground arith))

-- A number at the end of the text.
pub scan_signed-decimal : (n : ℕ) → n < 2 ^ 31 → scan_signed (decimal n) ≡ some (n, [])
unfolding scan_signed decimal more_digits
scan_signed-decimal n l =
    after_space-magnitude signed (decimal n) (n, [])
      (magnitude-digits 20 n [] (omega arith) (omega arith))
    ∙ ap (λ k. some (k, [])) (ground arith)

-- A word of bytes that are neither white space nor NUL.
abbrev pub IsPlain : List ℕ → Type 0
IsPlain [] = Unit {0}
IsPlain (c ∷ cs) = (is_space c ≡ false) × ((c == 0) ≡ false) × IsPlain cs

word-plain : (cs : List ℕ) → IsPlain cs → word (cs ++ 10 ∷ []) ≡ cs
unfolding word
word-plain [] h = refl
word-plain (c ∷ cs) h = rw (word, h.0) (rw h.1 (ap (λ t. c ∷ t) (word-plain cs h.2)))

pub scan_word-plain :
    (c : ℕ) (cs : List ℕ) → IsPlain (c ∷ cs) → scan_word (c ∷ cs ++ 10 ∷ []) ≡ some (c ∷ cs)
unfolding scan_word skip_space
scan_word-plain c cs h = rw (scan_word, h.0) (rw (word-plain (c ∷ cs) h) refl)
