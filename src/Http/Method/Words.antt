-- ===== src/Http/Method/Words.antt =====
-- The method of a request, against a table of words.
use simple_cache.Base.{
  ℕ, ◌<◌, ◌≡◌, ◌≢◌, refl, sym, ap, ◌∙◌, ◌↔◌, arith, Bool, true, false, ◌&&◌, ◌==◌, ==_iff,
  Bool-cases, inl, inr, ℤ, negsuc, List, [], ◌∷◌, ◌++◌, Option, none, some, length, take, pos,
  eqb_ℤ, take-append, if◌then◌else◌,
}
use simple_cache.ReadBuffer.{ReadBuffer, buffer_size, read_len, cmpn}
use simple_cache.ReadBuffer.Bounds.{IsValid}
use simple_cache.ReadBuffer.Contents.{contents}
use simple_cache.ReadBuffer.Compare.{NoNul, cmpn_lem, cmpn_total}
use simple_cache.Http.Method.{is_word, find_word}

-- Two words are the same.
abbrev pub eq_word : List ℕ → List ℕ → Bool
eq_word [] [] = true
eq_word [] (y ∷ ys) = false
eq_word (x ∷ xs) [] = false
eq_word (x ∷ xs) (y ∷ ys) = (x == y) && eq_word xs ys

eq_word_iff : (xs ys : List ℕ) → (eq_word xs ys ≡ true) ↔ (xs ≡ ys)
eq_word_iff [] [] = (λ h. refl, λ h. refl)
eq_word_iff [] (y ∷ ys) = (λ h. cc, λ h. cc)
eq_word_iff (x ∷ xs) [] = (λ h. cc, λ h. cc)
eq_word_iff (x ∷ xs) (y ∷ ys) =
    let ih = eq_word_iff xs ys in
    (λ h. ground (arith, ih.0, ==_iff x y), λ h. ground (arith, ih.1, ==_iff x y))

-- The number that goes with a word in a table: of its first row that has the word.
abbrev pub lookup : List ℕ → List (List ℕ × ℕ) → Option ℕ
lookup m [] = none
lookup m ((word, k) ∷ rest) = if eq_word m word then some k else lookup m rest

abbrev pub AllNoNul : List (List ℕ × ℕ) → Type 0
AllNoNul [] = Unit {0}
AllNoNul ((word, k) ∷ rest) = NoNul word × AllNoNul rest

some_inj : (a c : ℤ) → some a ≡ some c → a ≡ c
some_inj a c h = cc

eqb_ℤ_iff : (r : ℤ) → (eqb_ℤ r (pos 0) ≡ true) ↔ (r ≡ pos 0)
eqb_ℤ_iff (pos n) = (λ h. ground arith, λ h. ground arith)
eqb_ℤ_iff (negsuc n) = (λ h. ground arith, λ h. ground arith)

same_test : (p q : Bool) → ((p ≡ true) ↔ (q ≡ true)) → p ≡ q
same_test true true h = refl
same_test true false h = sym (h.0 refl)
same_test false true h = h.1 refl
same_test false false h = refl

eq_word-length : (m word : List ℕ) → length m ≢ length word → eq_word m word ≡ false
eq_word-length m word h = elim (Bool-cases (eq_word m word)) [
  | inl k ↦ absurd (h (ap length ((eq_word_iff m word).0 k)))
  | inr k ↦ k
]

module _ (b : ReadBuffer) (m t : List ℕ) (v : IsValid b) (room : read_len b < buffer_size)
    (e : contents b ≡ m ++ t) where
  prefix : (word : List ℕ) → length m ≡ length word → take (length word) (contents b) ≡ m
  prefix word h =
      ap (λ l. take (length word) l) e ∙ ap (λ n. take n (m ++ t)) (sym h) ∙ take-append m t

  -- The comparison with a word as long as `m`.
  compare_word :
      (word : List ℕ) (r : ℤ)
      → NoNul word
      → length m ≡ length word
      → cmpn b word (length word) ≡ some r
      → eqb_ℤ r (pos 0) ≡ eq_word m word
  compare_word word r z h c =
      let iff = cmpn_lem b word v room z in
      same_test (eqb_ℤ r (pos 0)) (eq_word m word) (
        λ p. (eq_word_iff m word).1 (sym (prefix word h) ∙ iff.0 (c ∙ ap some ((eqb_ℤ_iff r).0 p))),
        λ p.
            (eqb_ℤ_iff r).1
              (some_inj r (pos 0) (sym c ∙ iff.1 (prefix word h ∙ (eq_word_iff m word).0 p))),
      )

  -- At the end of the word `m` the comparison with a word finds whether it is `m`.
  is_word_lem : (word : List ℕ) → NoNul word → is_word b (length m) word ≡ some (eq_word m word)
  unfolding is_word
  is_word_lem word z = elim (Bool-cases (length m == length word)) [
    | inl k ↦
        let h : length m ≡ length word = (==_iff (length m) (length word)).0 k in
        let r = cmpn_total b word v room (length word) in
        rw (k, r.1) (ap some (compare_word word r.0 z h r.1))
    | inr k ↦ rw k (ap some (sym (eq_word-length m word (ne k))))
  ]
    where
      ne : (length m == length word) ≡ false → length m ≢ length word
      ne k h = ground arith

  -- The chain of comparisons looks the word up.
  pub find_word_lem :
      (rows : List (List ℕ × ℕ))
      → AllNoNul rows
      → find_word b (length m) rows ≡ some (lookup m rows)
  unfolding find_word
  find_word_lem [] z = refl
  find_word_lem ((word, k) ∷ rest) z =
      rw (is_word_lem word z.0) (case (find_word_lem rest z.1) (eq_word m word))
    where
      case :
          (find_word b (length m) rest ≡ some (lookup m rest))
          → (p : Bool)
          → elim p [ true ↦ some (some k) | false ↦ find_word b (length m) rest ]
            ≡ some (if p then some k else lookup m rest)
      case h true = refl
      case h false = h
