-- ===== src/ReadBuffer/Compare.antt =====
-- `rbuf_cmpn` against the prefixes of the unread bytes.
use simple_cache.Base.{
  ℕ, zero, suc, ◌+◌, ◌-◌, ◌≤◌, ◌<◌, ◌≡◌, ◌≢◌, refl, sym, ◌∙◌, ap, arith, List, [], ◌∷◌, ◌++◌,
  length, take, some, ℤ, pos, if◌then◌else◌, ◌↔◌, eqb_ℤ, negsuc,
}
use native.Mathlib.Decide.{dec_le}
use simple_cache.ReadBuffer.{
  ReadBuffer, buffer_size, index, read_len, read_remaining, compare_rest, strncmp, skip_n, cmpn,
}
use simple_cache.ReadBuffer.Bounds.{IsValid, contiguous, read_to_end_lem}
use simple_cache.ReadBuffer.Contents.{
  window, contents, take-window, take-window_all, window-append, memory-window, length-window,
}

-- No byte of the word is the terminator.
abbrev pub NoNul : List ℕ → Type 0
NoNul [] = Unit {0}
NoNul (c ∷ cs) = (c ≢ 0) × NoNul cs

-- Two runs of bytes compare as equal exactly when they are the same, up to the end of the word.
strncmp-eq :
    (n : ℕ) (xs ys : List ℕ)
    → NoNul xs
    → n ≤ length xs
    → n ≤ length ys
    → (strncmp xs ys n ≡ pos 0) ↔ (take n xs ≡ take n ys)
unfolding strncmp
strncmp-eq zero xs ys z h k = (λ e. refl, λ e. refl)
strncmp-eq (suc n) [] ys z h k = absurd (omega arith)
strncmp-eq (suc n) (x ∷ xs) [] z h k = absurd (omega arith)
strncmp-eq (suc n) (x ∷ xs) (y ∷ ys) z h k =
    let ih = strncmp-eq n xs ys z.1 (omega arith) (omega arith) in
    (λ e. ground (arith, ih.0, z.0), λ e. ground (arith, ih.1, z.0))

length-skip_n : (n : ℕ) (xs : List ℕ) → length (skip_n n xs) ≡ length xs - n
length-skip_n zero xs = omega arith
length-skip_n (suc n) [] = omega (arith, length-skip_n n [])
length-skip_n (suc n) (x ∷ xs) = omega (arith, length-skip_n n xs)

skip_n-NoNul : (n : ℕ) (xs : List ℕ) → NoNul xs → NoNul (skip_n n xs)
skip_n-NoNul zero xs z = z
skip_n-NoNul (suc n) [] z = skip_n-NoNul n [] z
skip_n-NoNul (suc n) (x ∷ xs) z = skip_n-NoNul n xs z.1

take_all : (n : ℕ) (xs : List ℕ) → n ≡ length xs → take n xs ≡ xs
take_all zero [] e = refl
take_all zero (x ∷ xs) e = absurd (omega arith)
take_all (suc n) [] e = refl
take_all (suc n) (x ∷ xs) e = ap (λ t. x ∷ t) (take_all n xs (omega arith))

-- A word is two runs in a row exactly when its two parts are the runs.
split_iff :
    (n : ℕ) (w xs ys : List ℕ)
    → n ≡ length xs
    → (xs ++ ys ≡ w) ↔ ((take n w ≡ xs) × (skip_n n w ≡ ys))
split_iff zero w [] ys e = (λ h. (refl, sym h), λ h. sym h.1)
split_iff zero w (x ∷ xs) ys e = absurd (omega arith)
split_iff (suc n) w [] ys e = absurd (omega arith)
split_iff (suc n) [] (x ∷ xs) ys e = (λ h. cc, λ h. cc h.0)
split_iff (suc n) (a ∷ w) (x ∷ xs) ys e =
    let ih = split_iff n w xs ys (omega arith) in
    (λ h. ground (arith, ih.0), λ h. ground (arith, ih.1))

module _ (b : ReadBuffer) (w : List ℕ) (v : IsValid b) (room : read_len b < buffer_size) where
  cmpn-contiguous :
      (n : ℕ)
      → n ≤ contiguous b
      → cmpn b w n ≡ some (strncmp w (window b.buffer b.read_position n) n)
  unfolding cmpn compare_rest strncmp read_remaining
  cmpn-contiguous n h = ground (
    arith,
    read_to_end_lem b v room,
    memory-window b b.read_position (index b.read_position) n refl,
  )

  -- Past the end of the array the second `strncmp` decides, unless the first has.
  cmpn-rollover :
      (n : ℕ)
      → contiguous b < n
      → n ≤ read_len b
      → let first = strncmp w (window b.buffer b.read_position (contiguous b)) (contiguous b) in
        let rest = n - contiguous b in
        let second =
          strncmp
            (skip_n (contiguous b) w)
            (window b.buffer (b.read_position + contiguous b) rest)
            rest in
        cmpn b w n ≡ some (if eqb_ℤ first (pos 0) then second else first)
  unfolding cmpn compare_rest read_remaining
  cmpn-rollover n h k = ground (
    arith,
    read_to_end_lem b v room,
    memory-window b b.read_position (index b.read_position) (contiguous b) refl,
    memory-window b (b.read_position + contiguous b) 0 (n - contiguous b),
  )

  cmpn-short : (n : ℕ) → read_len b < n → cmpn b w n ≡ some (negsuc 0)
  unfolding cmpn read_remaining
  cmpn-short n h = ground arith

if-zero : (a c : ℤ) → ((if eqb_ℤ a (pos 0) then c else a) ≡ pos 0) ↔ ((a ≡ pos 0) × (c ≡ pos 0))
if-zero a c = (λ h. (ground arith, ground arith), λ h. ground arith)

some_iff : (a : ℤ) → (some a ≡ some (pos 0)) ↔ (a ≡ pos 0)
some_iff a = (λ h. cc, λ h. cc)

-- Comparing `c` bytes of a word with as many bytes `xs`.
strncmp-part :
    (c : ℕ) (w xs : List ℕ)
    → NoNul w
    → c ≤ length w
    → c ≡ length xs
    → (strncmp w xs c ≡ pos 0) ↔ (take c w ≡ xs)
strncmp-part c w xs z h e =
    let i = strncmp-eq c w xs z h (omega arith) in
    (λ p. i.0 p ∙ take_all c xs e, λ p. i.1 (p ∙ sym (take_all c xs e)))

module _ (b : ReadBuffer) (w : List ℕ) (v : IsValid b) (room : read_len b < buffer_size)
    (z : NoNul w) where
  contiguous_iff :
      length w ≤ contiguous b
      → (cmpn b w (length w) ≡ some (pos 0)) ↔ (take (length w) (contents b) ≡ w)
  contiguous_iff h =
      rw
        (
          cmpn-contiguous b w v room (length w) h,
          take-window b.buffer b.read_position (length w) (read_len b) (omega arith),
        )
        (
          λ p. sym (part.0 ((some_iff _).0 p)) ∙ take_all (length w) w refl,
          λ p. (some_iff _).1 (part.1 (take_all (length w) w refl ∙ sym p)),
        )
    where
      part :
          (strncmp w (window b.buffer b.read_position (length w)) (length w) ≡ pos 0)
          ↔ (take (length w) w ≡ window b.buffer b.read_position (length w))
      part =
          strncmp-part (length w) w (window b.buffer b.read_position (length w)) z (omega arith)
            (sym (length-window b.buffer b.read_position (length w)))

  rollover_iff :
      contiguous b < length w
      → length w ≤ read_len b
      → (cmpn b w (length w) ≡ some (pos 0)) ↔ (take (length w) (contents b) ≡ w)
  rollover_iff h k =
      rw
        (
          cmpn-rollover b w v room (length w) h k,
          take-window b.buffer b.read_position (length w) (read_len b) k,
          window-append b.buffer b.read_position (length w) (contiguous b) rest (omega arith),
        )
        (
          λ p.
              let q = (if-zero _ _).0 ((some_iff _).0 p) in
              split.1
                (one.0 q.0, sym (sym (two.0 q.1) ∙ take_all rest (skip_n (contiguous b) w) size)),
          λ p.
              let q = split.0 p in
              (some_iff _).1 (
                (if-zero _ _).1
                  (one.1 q.0, two.1 (take_all rest (skip_n (contiguous b) w) size ∙ q.1))),
        )
    where
      rest : ℕ
      rest = length w - contiguous b

      size : rest ≡ length (skip_n (contiguous b) w)
      size = sym (length-skip_n (contiguous b) w)

      head : List ℕ
      head = window b.buffer b.read_position (contiguous b)

      tail : List ℕ
      tail = window b.buffer (b.read_position + contiguous b) rest

      one : (strncmp w head (contiguous b) ≡ pos 0) ↔ (take (contiguous b) w ≡ head)
      one =
          strncmp-part (contiguous b) w head z (omega arith)
            (sym (length-window b.buffer b.read_position (contiguous b)))

      two :
          (strncmp (skip_n (contiguous b) w) tail rest ≡ pos 0)
          ↔ (take rest (skip_n (contiguous b) w) ≡ tail)
      two =
          strncmp-part rest (skip_n (contiguous b) w) tail (skip_n-NoNul (contiguous b) w z)
            (omega (arith, size))
            (sym (length-window b.buffer (b.read_position + contiguous b) rest))

      split :
          (head ++ tail ≡ w) ↔ ((take (contiguous b) w ≡ head) × (skip_n (contiguous b) w ≡ tail))
      split =
          split_iff (contiguous b) w head tail
            (sym (length-window b.buffer b.read_position (contiguous b)))

  short_iff :
      read_len b < length w
      → (cmpn b w (length w) ≡ some (pos 0)) ↔ (take (length w) (contents b) ≡ w)
  short_iff h =
      rw
        (
          cmpn-short b w v room (length w) h,
          take-window_all b.buffer b.read_position (length w) (read_len b) (omega arith),
        )
        (
          λ p. cc,
          λ p.
              absurd
                (omega (arith, ap length p, length-window b.buffer b.read_position (read_len b))),
        )

-- `rbuf_cmpn` with the length of a word that has no NUL returns 0 exactly when the word is a prefix
-- of the unread bytes, round the end of the array too. The buffer is valid and not full.
pub cmpn_lem :
    (b : ReadBuffer) (w : List ℕ)
    → IsValid b
    → read_len b < buffer_size
    → NoNul w
    → (cmpn b w (length w) ≡ some (pos 0)) ↔ (take (length w) (contents b) ≡ w)
cmpn_lem b w v room z = elim (dec_le (length w) (contiguous b)) [
  | yes h ↦ contiguous_iff b w v room z h
  | no h ↦ elim (dec_le (length w) (read_len b)) [
    | yes k ↦ rollover_iff b w v room z (omega arith) k
    | no k ↦ short_iff b w v room z (omega arith)
  ]
]

-- The comparison has a result.
pub cmpn_total :
    (b : ReadBuffer) (w : List ℕ)
    → IsValid b
    → read_len b < buffer_size
    → (n : ℕ) → (r : ℤ) × (cmpn b w n ≡ some r)
cmpn_total b w v room n = elim (dec_le n (contiguous b)) [
  | yes h ↦ (_, cmpn-contiguous b w v room n h)
  | no h ↦ elim (dec_le n (read_len b)) [
    | yes k ↦ (_, cmpn-rollover b w v room n (omega arith) k)
    | no k ↦ (_, cmpn-short b w v room n (omega arith))
  ]
]
