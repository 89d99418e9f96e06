-- ===== src/ReadBuffer/Number.antt =====
-- `rbuf_strntol` against the value of a decimal text.
use native.Mathlib.Nat.{pow-suc, one-le-pow}
use simple_cache.Base.{
  ℕ, zero, suc, ◌+◌, ◌-◌, ◌*◌, ◌^◌, ◌≤◌, ◌<◌, ◌≡◌, ◌≢◌, refl, sym, ◌∙◌, ap, fun_ext, arith, inl,
  inr, List, [], ◌∷◌, length, take, pos, ltb, Bool-cases, ◌↔◌,
}
use simple_cache.ReadBuffer.{
  ReadBuffer, buffer_size, index, read_len, read_remaining, int_max, add_digit, read_digits,
  strntol, Parsed, and_then, fault, reject, value,
}
use simple_cache.ReadBuffer.Bounds.{IsValid, contiguous, read_to_end_lem}
use simple_cache.ReadBuffer.Contents.{window, contents, take-window}

abbrev pub IsDigit : ℕ → Type 0
IsDigit c = (b'0' ≤ c) × (c ≤ b'9')

abbrev pub AllDigits : List ℕ → Type 0
AllDigits [] = Unit {0}
AllDigits (c ∷ cs) = IsDigit c × AllDigits cs

-- The value of a decimal text, most significant digit first.
abbrev pub decimal : List ℕ → ℕ
decimal [] = 0
decimal (c ∷ cs) = (c - b'0') * 10 ^ length cs + decimal cs

-- The loop over a list of bytes.
add_digits : ℕ → List ℕ → Parsed
add_digits r [] = value r
add_digits r (c ∷ cs) = and_then (add_digit r c) λ r'. add_digits r' cs

read_digits-window :
    (b : ReadBuffer) (i j n r : ℕ)
    → index i ≡ j
    → j + n ≤ buffer_size
    → read_digits b j n r ≡ add_digits r (window b.buffer i n)
unfolding read_digits add_digits
read_digits-window b i j zero r e h = refl
read_digits-window b i j (suc zero) r e h = elim (Bool-cases (ltb j buffer_size)) [
  | inl t ↦ rw (t, e, read_digits) refl
  | inr t ↦ absurd (ground arith)
]
read_digits-window b i j (suc (suc n)) r e h = elim (Bool-cases (ltb j buffer_size)) [
  | inl t ↦
      rw (t, e, read_digits)
        (ap (and_then (add_digit r (b.buffer j))) (
          fun_ext
            λ r'. read_digits-window b (i + 1) (j + 1) (suc n) r' (omega arith) (omega arith)))
  | inr t ↦ absurd (ground arith)
]

-- The value of `r` followed by the digits `cs`.
abbrev shifted : ℕ → List ℕ → ℕ
shifted r cs = r * 10 ^ length cs + decimal cs

add_digit-value :
    (r c : ℕ)
    → r * 10 + (c - b'0') ≤ int_max
    → IsDigit c
    → add_digit r c ≡ value (r * 10 + (c - b'0'))
unfolding add_digit
add_digit-value r c h d = ground arith

le-shifted : (r : ℕ) (cs : List ℕ) → r ≤ shifted r cs
le-shifted r [] = omega arith
le-shifted r (c ∷ cs) = grind (arith, one-le-pow (length (c ∷ cs)) 10)

shifted-cons : (r c : ℕ) (cs : List ℕ) → shifted (r * 10 + (c - b'0')) cs ≡ shifted r (c ∷ cs)
shifted-cons r c cs = rw pow-suc (omega arith)

add_digits-value :
    (r : ℕ) (cs : List ℕ)
    → AllDigits cs
    → shifted r cs ≤ int_max
    → add_digits r cs ≡ value (shifted r cs)
unfolding add_digits
add_digits-value r [] d h = ap value (omega arith)
add_digits-value r (c ∷ cs) d h =
    let r' = r * 10 + (c - b'0') in
    rw (add_digit-value r c (omega (arith, le-shifted r' cs, shifted-cons r c cs)) d.0) (
      add_digits-value r' cs d.1 (omega (arith, shifted-cons r c cs))
      ∙ ap value (shifted-cons r c cs))

-- What a round that goes on has tested.
add_digit_sound :
    (r c x : ℕ) → add_digit r c ≡ value x → IsDigit c × (x ≡ r * 10 + (c - b'0')) × (x ≤ int_max)
unfolding add_digit
add_digit_sound r c x e = (ground arith, ground arith, ground arith)

abbrev Reads : ℕ → List ℕ → ℕ → Type 0
Reads r cs x = AllDigits cs × (x ≡ shifted r cs) × (x ≤ int_max)

add_digits_sound :
    (r : ℕ) (cs : List ℕ) (x : ℕ) → r ≤ int_max → add_digits r cs ≡ value x → Reads r cs x
unfolding add_digits
add_digits_sound r [] x h e = (tt, ground arith, ground arith)
add_digits_sound r (c ∷ cs) x h e =
    first_digit (add_digit r c) refl e λ r' h' e'. add_digits_sound r' cs x h' e'
  where
    first_digit :
        (p : Parsed)
        → add_digit r c ≡ p
        → and_then p (λ r'. add_digits r' cs) ≡ value x
        → ((r' : ℕ) → r' ≤ int_max → add_digits r' cs ≡ value x → Reads r' cs x)
        → Reads r (c ∷ cs) x
    first_digit fault f e rest = cc
    first_digit reject f e rest = cc
    first_digit (value r') f e rest =
        let s = add_digit_sound r c r' f in
        let t = rest r' s.2 e in
        ((s.0, t.0), t.1 ∙ ap (λ k. shifted k cs) s.1 ∙ shifted-cons r c cs, t.2)

-- Below the end of the array the first loop reads the text and the second does not run.
strntol-window :
    (b : ReadBuffer) (m : ℕ)
    → IsValid b
    → read_len b < buffer_size
    → m < contiguous b
    → strntol b (pos m) ≡ add_digits 0 (take m (contents b))
unfolding strntol
strntol-window b m v room h = ground (
  arith,
  read_to_end_lem b v room,
  read_digits-window b b.read_position (index b.read_position) m 0 refl,
  take-window b.buffer b.read_position m (read_len b),
)

-- `rbuf_strntol` over the first `m` unread bytes, where one more unread byte stands behind them
-- before the end of the array, in a valid buffer that is not full, yields a value exactly when the
-- `m` bytes are all digits and their decimal value, which it yields, fits an `int`.
pub strntol_lem :
    (b : ReadBuffer) (m x : ℕ)
    → IsValid b
    → read_len b < buffer_size
    → m < contiguous b
    → (strntol b (pos m) ≡ value x)
      ↔ (AllDigits (take m (contents b)) × (x ≡ decimal (take m (contents b))) × (x ≤ int_max))
strntol_lem b m x v room h = rw (strntol-window b m v room h) (
  λ e.
      let p = add_digits_sound 0 (take m (contents b)) x (omega arith) e in
      (p.0, omega (arith, p.1), p.2),
  λ p.
      add_digits-value 0 (take m (contents b)) p.0 (omega (arith, p.1, p.2))
      ∙ ap value (omega (arith, p.1)),
)

read_digits-reject :
    (b : ReadBuffer) (n r : ℕ)
    → n ≢ 0
    → r * 10 ≤ int_max
    → ¬ IsDigit (b.buffer 0)
    → read_digits b 0 n r ≡ reject
unfolding read_digits add_digit
read_digits-reject b zero r e h other = absurd (e refl)
read_digits-reject b (suc n) r e h other = ground arith

read_digits-at_end :
    (b : ReadBuffer) (m : ℕ)
    → m ≡ buffer_size - index b.read_position
    → m < read_len b
    → AllDigits (take m (contents b))
    → decimal (take m (contents b)) ≤ int_max
    → read_digits b (index b.read_position) m 0 ≡ value (decimal (take m (contents b)))
read_digits-at_end b m e h d fits =
    read_digits-window b b.read_position (index b.read_position) m 0 refl (omega arith)
    ∙ ap (add_digits 0) (sym (take-window b.buffer b.read_position m (read_len b) (omega arith)))
    ∙ add_digits-value 0 (take m (contents b)) d (omega arith)
    ∙ ap value (omega arith)

-- Where the digits end with the last byte of the array, though more follow at its start, the second
-- loop runs on: a number that fits, followed by another byte than a digit, is refused.
pub strntol_at_end :
    (b : ReadBuffer) (m : ℕ)
    → IsValid b
    → read_len b < buffer_size
    → m ≡ buffer_size - index b.read_position
    → m < read_len b
    → AllDigits (take m (contents b))
    → decimal (take m (contents b)) * 10 ≤ int_max
    → ¬ IsDigit (b.buffer 0)
    → strntol b (pos m) ≡ reject
unfolding strntol
strntol_at_end b m v room e h d fits other = ground (
  arith,
  read_to_end_lem b v room,
  read_digits-at_end b m e h d,
  read_digits-reject b (read_remaining b + 1) (decimal (take m (contents b))),
)
