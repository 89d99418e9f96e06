-- ===== src/Http/Newlines/Blank.antt =====
-- The count of newlines over a request's lines, up to the blank one that ends them.
use simple_cache.Base.{
  ℕ, zero, suc, ◌<◌, ◌≡◌, ◌≢◌, refl, sym, ap, subst, ◌∙◌, arith, List, [], ◌∷◌, ◌++◌, length,
  append_assoc,
}
use simple_cache.Http.Iterate.Until.{nth, Avoids}
use simple_cache.Http.Newlines.{count_newlines}

-- The count after the first `k` bytes, from the count `c` on.
abbrev pub counts : ℕ → List ℕ → ℕ → ℕ
counts c xs zero = c
counts c [] (suc k) = c
counts c (x ∷ xs) (suc k) = counts (count_newlines c x) xs k

-- The count goes from `c` to `d` and stays below 2 on the way.
abbrev pub Run : ℕ → List ℕ → ℕ → Type 0
Run c [] d = c ≡ d
Run c (x ∷ xs) d = (count_newlines c x < 2) × Run (count_newlines c x) xs d

-- Lines, each with its end, before the bytes `ys`.
abbrev pub text : List (List ℕ) → List ℕ → List ℕ
text [] ys = ys
text (l ∷ ls) ys = l ++ b'\r' ∷ b'\n' ∷ text ls ys

abbrev pub IsText : List (List ℕ) → Type 0
IsText [] = Unit {0}
IsText (l ∷ ls) = ((length l ≢ 0) × Avoids b'\r' l × Avoids b'\n' l) × IsText ls

pub counts-step :
    (c : ℕ) (xs : List ℕ) (k : ℕ)
    → k < length xs
    → counts c xs (suc k) ≡ count_newlines (counts c xs k) (nth xs k)
counts-step c [] k h = absurd (omega arith)
counts-step c (x ∷ xs) zero h = refl
counts-step c (x ∷ xs) (suc k) h = counts-step (count_newlines c x) xs k (omega arith)

pub Run-below :
    (c : ℕ) (xs : List ℕ) (d k : ℕ) → Run c xs d → k < length xs → counts c xs (suc k) < 2
Run-below c [] d k r h = absurd (omega arith)
Run-below c (x ∷ xs) d zero r h = r.0
Run-below c (x ∷ xs) d (suc k) r h = Run-below (count_newlines c x) xs d k r.1 (omega arith)

pub Run-counts : (c : ℕ) (xs : List ℕ) (d : ℕ) → Run c xs d → counts c xs (length xs) ≡ d
Run-counts c [] d r = r
Run-counts c (x ∷ xs) d r = Run-counts (count_newlines c x) xs d r.1

Run-append :
    (c : ℕ) (xs : List ℕ) (d : ℕ) (ys : List ℕ) (e : ℕ)
    → Run c xs d
    → Run d ys e
    → Run c (xs ++ ys) e
Run-append c [] d ys e r s = subst (λ k. Run k ys e) (sym r) s
Run-append c (x ∷ xs) d ys e r s = (r.0, Run-append (count_newlines c x) xs d ys e r.1 s)

-- Any other byte than CR and LF sets the count to 0.
count-reset : (c x : ℕ) → x ≢ b'\r' → x ≢ b'\n' → count_newlines c x ≡ 0
count-reset c x p q = ground arith

Run-word : (xs : List ℕ) → Avoids b'\r' xs → Avoids b'\n' xs → Run 0 xs 0
Run-word [] p q = refl
Run-word (x ∷ xs) p q =
    subst (λ k. (k < 2) × Run k xs 0) (sym (count-reset 0 x p.0 q.0))
      (omega arith, Run-word xs p.1 q.1)

Run-line : (c : ℕ) (xs : List ℕ) → length xs ≢ 0 → Avoids b'\r' xs → Avoids b'\n' xs → Run c xs 0
Run-line c [] h p q = absurd (h refl)
Run-line c (x ∷ xs) h p q =
    subst (λ k. (k < 2) × Run k xs 0) (sym (count-reset c x p.0 q.0))
      (omega arith, Run-word xs p.1 q.1)

-- The end of a line after a word, and what follows it.
Run-crlf : (ys : List ℕ) (d : ℕ) → Run 1 ys d → Run 0 (b'\r' ∷ b'\n' ∷ ys) d
Run-crlf ys d r = (omega arith, (omega arith, r))

Run-text :
    (ls : List (List ℕ)) (ys : List ℕ) (d : ℕ) → IsText ls → Run 1 ys d → Run 1 (text ls ys) d
Run-text [] ys d a r = r
Run-text (l ∷ ls) ys d a r =
    Run-append 1 l 0 (b'\r' ∷ b'\n' ∷ text ls ys) d (Run-line 1 l a.0.0 a.0.1 a.0.2)
      (Run-crlf (text ls ys) d (Run-text ls ys d a.1 r))

-- The rest of a line and the lines behind it, up to the CR of a blank one, leave the count at 1.
pub Run-request :
    (l : List ℕ) (ls : List (List ℕ))
    → Avoids b'\r' l
    → Avoids b'\n' l
    → IsText ls
    → Run 0 (text (l ∷ ls) (b'\r' ∷ [])) 1
Run-request l ls p q a =
    Run-append 0 l 0 (b'\r' ∷ b'\n' ∷ text ls (b'\r' ∷ [])) 1 (Run-word l p q)
      (Run-crlf (text ls (b'\r' ∷ [])) 1 (Run-text ls (b'\r' ∷ []) 1 a (omega arith, refl)))

pub text-append : (ls : List (List ℕ)) (ys zs : List ℕ) → text ls ys ++ zs ≡ text ls (ys ++ zs)
text-append [] ys zs = refl
text-append (l ∷ ls) ys zs =
    append_assoc l (b'\r' ∷ b'\n' ∷ text ls ys) zs
    ∙ ap (λ x. l ++ b'\r' ∷ b'\n' ∷ x) (text-append ls ys zs)
