-- ===== src/Http/Iterate/Until.antt =====
-- `RBUF_ITERATE` over the list of unread bytes: up to a byte at which its inner function stops.
use simple_cache.Base.{
  ℕ, zero, suc, ◌+◌, ◌<◌, ◌≡◌, ◌≢◌, refl, sym, ap, ◌∙◌, arith, true, List, [], ◌∷◌, ◌++◌, Option,
  some, length, length-append,
}
use simple_cache.ReadBuffer.{ReadBuffer, buffer_size, index, read_len}
use simple_cache.ReadBuffer.Bounds.{IsValid}
use simple_cache.ReadBuffer.Contents.{window, contents, length-window}
use simple_cache.Http.{Action}
use simple_cache.Http.Iterate.{iterate}
use simple_cache.Http.Iterate.Scan.{stops, call_at, iterate-stop, iterate-end}

abbrev pub nth : List ℕ → ℕ → ℕ
nth [] n = 0
nth (x ∷ xs) zero = x
nth (x ∷ xs) (suc n) = nth xs n

abbrev pub Avoids : ℕ → List ℕ → Type 0
Avoids c [] = Unit {0}
Avoids c (x ∷ xs) = (x ≢ c) × Avoids c xs

pub nth-Avoids : (c : ℕ) (xs : List ℕ) (k : ℕ) → Avoids c xs → k < length xs → nth xs k ≢ c
nth-Avoids c [] k a h = absurd (omega arith)
nth-Avoids c (x ∷ xs) zero a h = a.0
nth-Avoids c (x ∷ xs) (suc k) a h = nth-Avoids c xs k a.1 (omega arith)

pub nth-append : (xs ys : List ℕ) (k : ℕ) → k < length xs → nth (xs ++ ys) k ≡ nth xs k
nth-append [] ys k h = absurd (omega arith)
nth-append (x ∷ xs) ys zero h = refl
nth-append (x ∷ xs) ys (suc k) h = nth-append xs ys k (omega arith)

pub nth-middle : (xs ys : List ℕ) (c : ℕ) → nth (xs ++ c ∷ ys) (length xs) ≡ c
nth-middle [] ys c = refl
nth-middle (x ∷ xs) ys c = nth-middle xs ys c

nth-window : (f : ℕ → ℕ) (i n k : ℕ) → k < n → nth (window f i n) k ≡ f (index (i + k))
nth-window f i zero k h = absurd (omega arith)
nth-window f i (suc n) zero h = ap (λ t. f (index t)) (omega arith)
nth-window f i (suc n) (suc k) h =
    nth-window f (i + 1) n k (omega arith) ∙ ap (λ t. f (index t)) (omega arith)

pub nth-contents :
    (b : ReadBuffer) (k : ℕ)
    → k < read_len b
    → nth (contents b) k ≡ b.buffer (index (b.read_position + k))
nth-contents b k h = nth-window b.buffer b.read_position (read_len b) k h

pub length-contents : (b : ReadBuffer) → length (contents b) ≡ read_len b
length-contents b = length-window b.buffer b.read_position (read_len b)

module _ {ℓ} {W : Type ℓ} (input : W → ReadBuffer) (inner : ℕ → ℕ → ℕ → W → Option (Action × ℕ × W))
    (b : ReadBuffer) (state : ℕ → W) (same : (k : ℕ) → input (state k) ≡ b) (v : IsValid b)
    (room : read_len b < buffer_size) where
  -- The place in the array of the unread byte `k`.
  abbrev pub place : ℕ → ℕ
  place k = index (b.read_position + k)

  -- The call at the unread byte `k`, which is `c`.
  call-nth :
      (k c : ℕ)
      → k < read_len b
      → nth (contents b) k ≡ c
      → call_at input inner b state same v room k ≡ inner k (place k) c (state k)
  call-nth k c h e = ap (λ t. inner k (place k) t (state k)) (sym (nth-contents b k h) ∙ e)

  -- Where the unread bytes are `m`, then `c`, then others, and the inner function goes on at each
  -- byte of `m`, each time from one state to the next, and stops at `c`, `RBUF_ITERATE` gives what it
  -- gives there. The buffer is valid and not full.
  pub iterate-through :
      (m t : List ℕ) (c n : ℕ) (a : Action) (x : W)
      → contents b ≡ m ++ c ∷ t
      → ((k : ℕ)
          → k < length m
          → inner k (place k) (nth m k) (state k)
            ≡ some (Action.continue_processing, k + 1, state (k + 1)))
      → stops a ≡ true
      → inner (length m) (place (length m)) c (state (length m)) ≡ some (a, n, x)
      → iterate input inner (state 0) ≡ some (a, n, x)
  iterate-through m t c n a x e q s f =
      iterate-stop input inner b state same v room (length m) n a x (omega (arith, size))
        (λ k h.
          call-nth k (nth m k) (omega (arith, size))
            (ap (λ l. nth l k) e ∙ nth-append m (c ∷ t) k h)
          ∙ q k h)
        s
        (call-nth (length m) c (omega (arith, size))
            (ap (λ l. nth l (length m)) e ∙ nth-middle m t c)
          ∙ f)
    where
      size : read_len b ≡ length m + suc (length t)
      size = sym (length-contents b) ∙ ap length e ∙ length-append m (c ∷ t)

module _ {ℓ} {W : Type ℓ} (input : W → ReadBuffer) (inner : ℕ → ℕ → ℕ → W → Option (Action × ℕ × W))
    (w : W) (v : IsValid (input w)) (room : read_len (input w) < buffer_size) where
  abbrev pub place_of : ℕ → ℕ
  place_of k = index ((input w).read_position + k)

  -- Where the unread bytes are `m`, then `c`, then others, and the inner function goes on at each
  -- byte of `m` and stops at `c`, `RBUF_ITERATE` gives what it gives there. The buffer is valid and
  -- not full.
  pub iterate-until :
      (m t : List ℕ) (c n : ℕ) (a : Action) (x : W)
      → contents (input w) ≡ m ++ c ∷ t
      → ((k : ℕ)
          → k < length m
          → inner k (place_of k) (nth m k) w ≡ some (Action.continue_processing, k + 1, w))
      → stops a ≡ true
      → inner (length m) (place_of (length m)) c w ≡ some (a, n, x)
      → iterate input inner w ≡ some (a, n, x)
  iterate-until = iterate-through input inner (input w) (λ k. w) (λ k. refl) v room

  -- Where it goes on at all unread bytes, `RBUF_ITERATE` asks for more, with `n` their number.
  pub iterate-all :
      ((k : ℕ)
        → k < read_len (input w)
        → inner k (place_of k) (nth (contents (input w)) k) w
          ≡ some (Action.continue_processing, k + 1, w))
      → iterate input inner w ≡ some (Action.needs_more_read, read_len (input w), w)
  iterate-all q =
      iterate-end input inner (input w) (λ k. w) (λ k. refl) v room
        λ k h.
          call-nth input inner (input w) (λ k. w) (λ k. refl) v room k (nth (contents (input w)) k)
            h refl
          ∙ q k h
