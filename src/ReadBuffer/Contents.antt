-- ===== src/ReadBuffer/Contents.antt =====
-- The abstract view of a buffer: the queue of its unread bytes.
use simple_cache.Base.{
  ℕ, zero, suc, ◌+◌, ◌≤◌, ◌≡◌, refl, sym, ap, ap₂, ◌∙◌, arith, List, [], ◌∷◌, ◌++◌, length, take,
  some, pos,
}
use simple_cache.ReadBuffer.{ReadBuffer, buffer_size, index, read_len, bytes_at, memory}

-- `n` bytes from position `i` on, round the array
abbrev pub window : (ℕ → ℕ) → ℕ → ℕ → List ℕ
window f i zero = []
window f i (suc n) = f (index i) ∷ window f (i + 1) n

-- oldest first
abbrev pub contents : ReadBuffer → List ℕ
contents b = window b.buffer b.read_position (read_len b)

pub length-window : (f : ℕ → ℕ) (i n : ℕ) → length (window f i n) ≡ n
length-window f i zero = refl
length-window f i (suc n) = ap suc (length-window f (i + 1) n)

pub take-window : (f : ℕ → ℕ) (i k n : ℕ) → k ≤ n → take k (window f i n) ≡ window f i k
take-window f i zero n h = refl
take-window f i (suc k) zero h = absurd (omega arith)
take-window f i (suc k) (suc n) h =
    ap (λ t. f (index i) ∷ t) (take-window f (i + 1) k n (omega arith))

pub take-window_all : (f : ℕ → ℕ) (i k n : ℕ) → n ≤ k → take k (window f i n) ≡ window f i n
take-window_all f i zero zero h = refl
take-window_all f i zero (suc n) h = absurd (omega arith)
take-window_all f i (suc k) zero h = refl
take-window_all f i (suc k) (suc n) h =
    ap (λ t. f (index i) ∷ t) (take-window_all f (i + 1) k n (omega arith))

-- A window depends on where its start lies in the array only.
pub window-index : (f : ℕ → ℕ) (i j n : ℕ) → index i ≡ index j → window f i n ≡ window f j n
window-index f i j zero e = refl
window-index f i j (suc n) e = ap₂ ◌∷◌ (ap f e) (window-index f (i + 1) (j + 1) n (omega arith))

pub window-append :
    (f : ℕ → ℕ) (i k m n : ℕ) → k ≡ m + n → window f i k ≡ window f i m ++ window f (i + m) n
window-append f i k zero n e =
    let e' : k ≡ n = omega arith in rw e' (window-index f i (i + 0) n (omega arith))
window-append f i k (suc m) n e =
    let e' : k ≡ suc (m + n) = omega arith in
    rw e' (
      ap (λ t. f (index i) ∷ t)
        (window-append f (i + 1) (m + n) m n refl
          ∙ ap (λ t. window f (i + 1) m ++ t)
              (window-index f (i + 1 + m) (i + suc m) n (omega arith))))

-- Before the end of the array the window is a plain run of bytes.
pub bytes_at-window :
    (f : ℕ → ℕ) (i j n : ℕ) → index i ≡ j → j + n ≤ buffer_size → bytes_at f j n ≡ window f i n
unfolding bytes_at
bytes_at-window f i j zero e h = refl
bytes_at-window f i j (suc zero) e h = rw e
bytes_at-window f i j (suc (suc n)) e h =
    ap₂ ◌∷◌ (ap f (sym e)) (bytes_at-window f (i + 1) (j + 1) (suc n) (omega arith) (omega arith))

pub length-bytes_at : (f : ℕ → ℕ) (i n : ℕ) → length (bytes_at f i n) ≡ n
unfolding bytes_at
length-bytes_at f i zero = refl
length-bytes_at f i (suc n) = ap suc (length-bytes_at f (i + 1) n)

-- A read that starts where position `i` lies and ends within the array gives the window.
pub memory-window :
    (b : ReadBuffer) (i j n : ℕ)
    → index i ≡ j
    → j + n ≤ buffer_size
    → memory b j (pos n) ≡ some (window b.buffer i n)
unfolding memory
memory-window b i j n e h = ground (arith, bytes_at-window b.buffer i j n e h)
