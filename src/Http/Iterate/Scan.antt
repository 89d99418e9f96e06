-- ===== src/Http/Iterate/Scan.antt =====
-- `RBUF_ITERATE` as a walk along the list of unread bytes, for an inner function that leaves the
-- buffer alone until it stops. Its state may change from byte to byte.
use simple_cache.Base.{
  ℕ, zero, suc, ◌+◌, ◌^◌, ◌≤◌, ◌<◌, ◌≡◌, refl, sym, ap, subst, ◌∙◌, arith, Bool, true, false,
  Option, some, ltb, if◌then◌else◌, pos, eqb_ℤ,
}
use native.Mathlib.Decide.{dec_lt}
use simple_cache.ReadBuffer.{ReadBuffer, buffer_size, index, read_len, read_remaining}
use simple_cache.ReadBuffer.Bounds.{IsValid, contiguous, read_to_end_lem}
use simple_cache.Http.{Action}
use simple_cache.Http.Iterate.{rounds, iterate, load_byte}

abbrev pub stops : Action → Bool
stops Action.continue_processing = false
stops _ = true

ltb-true : (a b : ℕ) → a < b → ltb a b ≡ true
ltb-true a b h = ground arith

ltb-false : (a b : ℕ) → b ≤ a → ltb a b ≡ false
ltb-false a b h = ground arith

-- A round whose action is not to continue is the last one.
stop_now {ℓ} :
    {W : Type ℓ} (next : Option (Action × ℕ × W)) (a : Action) (m : ℕ) (x : W)
    → stops a ≡ true
    → ◌≡◌ {A = Option (Action × ℕ × W)}
        (elim a [ Action.continue_processing ↦ next | b ↦ some (b, m, x) ])
        (some (a, m, x))
stop_now next Action.continue_processing m x s = cc
stop_now next Action.close_connection m x s = refl
stop_now next Action.registered_write m x s = refl
stop_now next Action.needs_more_read m x s = refl

module _ {ℓ} {W : Type ℓ} (input : W → ReadBuffer) (inner : ℕ → ℕ → ℕ → W → Option (Action × ℕ × W))
    (b : ReadBuffer) (state : ℕ → W) (same : (k : ℕ) → input (state k) ≡ b) (v : IsValid b)
    (room : read_len b < buffer_size) where
  abbrev pub position : ℕ → ℕ
  position n = index (b.read_position + n)

  abbrev Points : ℕ → ℕ → Type 0
  Points n i = (if eqb_ℤ (pos (contiguous b)) (pos n) then 0 else i) ≡ position n

  Points-next : (n : ℕ) → n + 1 < read_len b → Points (n + 1) (position n + 1)
  unfolding read_len
  Points-next n h = ground arith

  Points-start : 0 < read_len b → Points 0 (index b.read_position)
  unfolding read_len
  Points-start h = ground arith

  some_bytes : 0 < read_len b → eqb_ℤ (pos (contiguous b)) (pos 0) ≡ false
  some_bytes h = ground arith

  load-within : (n : ℕ) → load_byte b (position n) ≡ some (b.buffer (position n))
  load-within n = ground arith

  load-position : (n : ℕ) → load_byte (input (state n)) (position n) ≡ some (b.buffer (position n))
  load-position n = ap (λ x. load_byte x (position n)) (same n) ∙ load-within n

  more_at : (n : ℕ) → n < read_len b → ltb n (read_remaining (input (state n))) ≡ true
  unfolding read_remaining
  more_at n h = ap (λ x. ltb n (read_remaining x)) (same n) ∙ ltb-true n (read_len b) h

  -- The call at the byte `n` with the state that the bytes before have led to.
  abbrev pub call_at : ℕ → Option (Action × ℕ × W)
  call_at n = inner n (position n) (b.buffer (position n)) (state n)

  round-continue :
      (n i fuel : ℕ)
      → n < read_len b
      → Points n i
      → call_at n ≡ some (Action.continue_processing, n + 1, state (n + 1))
      → rounds input inner (pos (contiguous b)) (suc fuel) n i (state n)
        ≡ rounds input inner (pos (contiguous b)) fuel (n + 1) (position n + 1) (state (n + 1))
  unfolding rounds read_remaining
  round-continue n i fuel h p e =
      rw (rounds, more_at n h, p, load-position n)
        (rw e (
          ap (λ t. rounds input inner (pos (contiguous b)) fuel (n + 1) (t + 1) (state (n + 1))) p))

  round-stop :
      (n i fuel m : ℕ) (a : Action) (x : W)
      → n < read_len b
      → Points n i
      → stops a ≡ true
      → call_at n ≡ some (a, m, x)
      → rounds input inner (pos (contiguous b)) (suc fuel) n i (state n) ≡ some (a, m, x)
  unfolding rounds read_remaining
  round-stop n i fuel m a x h p s e =
      rw (rounds, more_at n h, p, load-position n) (rw e (stop_now _ a m x s))

  rounds-stop :
      (d n i fuel m : ℕ) (a : Action) (x : W)
      → n + d < read_len b
      → d < fuel
      → Points n i
      → ((k : ℕ) → k < n + d → call_at k ≡ some (Action.continue_processing, k + 1, state (k + 1)))
      → stops a ≡ true
      → call_at (n + d) ≡ some (a, m, x)
      → rounds input inner (pos (contiguous b)) fuel n i (state n) ≡ some (a, m, x)
  rounds-stop d n i zero m a x h f p q s e = absurd (omega arith)
  rounds-stop zero n i (suc fuel) m a x h f p q s e =
      round-stop n i fuel m a x (omega arith) p s
        (subst (λ t. call_at t ≡ some (a, m, x)) (omega arith) e)
  rounds-stop (suc d) n i (suc fuel) m a x h f p q s e =
      round-continue n i fuel (omega arith) p (q n (omega arith))
      ∙ rounds-stop d (n + 1) (position n + 1) fuel m a x (omega arith) (omega arith)
          (Points-next n (omega arith)) (λ k u. q k (omega arith)) s
          (subst (λ t. call_at t ≡ some (a, m, x)) (omega arith) e)

  round-end :
      (n i fuel : ℕ)
      → n ≡ read_len b
      → rounds input inner (pos (contiguous b)) (suc fuel) n i (state n)
        ≡ some (Action.needs_more_read, n, state n)
  unfolding rounds read_remaining
  round-end n i fuel h =
      rw
        (
          rounds,
          ap (λ x. ltb n (read_remaining x)) (same n) ∙ ltb-false n (read_len b) (omega arith),
        )
        refl

  rounds-end :
      (d n i fuel : ℕ)
      → n + d ≡ read_len b
      → d < fuel
      → (n < read_len b → Points n i)
      → ((k : ℕ) → k < n + d → call_at k ≡ some (Action.continue_processing, k + 1, state (k + 1)))
      → rounds input inner (pos (contiguous b)) fuel n i (state n)
        ≡ some (Action.needs_more_read, read_len b, state (read_len b))
  rounds-end d n i zero h f p q = absurd (omega arith)
  rounds-end zero n i (suc fuel) h f p q =
      round-end n i fuel (omega arith)
      ∙ ap (λ t. some (Action.needs_more_read, t, state t)) {x = n} (omega arith)
  rounds-end (suc d) n i (suc fuel) h f p q =
      round-continue n i fuel (omega arith) (p (omega arith)) (q n (omega arith))
      ∙ rounds-end d (n + 1) (position n + 1) fuel (omega arith) (omega arith)
          (λ k. Points-next n k) (λ k u. q k (omega arith))

  no_bytes : read_len b ≡ 0 → eqb_ℤ (pos (contiguous b)) (pos 0) ≡ true
  no_bytes h = ground arith

  -- `RBUF_ITERATE` calls its inner function at the byte `n` with that byte and its place, where it
  -- has passed over all bytes before, and ends with the result of that call, if it stops.
  pub iterate-stop :
      (n m : ℕ) (a : Action) (x : W)
      → n < read_len b
      → ((k : ℕ) → k < n → call_at k ≡ some (Action.continue_processing, k + 1, state (k + 1)))
      → stops a ≡ true
      → call_at n ≡ some (a, m, x)
      → iterate input inner (state 0) ≡ some (a, m, x)
  unfolding iterate
  iterate-stop n m a x h q s e =
      rw (same 0, read_to_end_lem b v room, some_bytes (omega arith))
        (rounds-stop n 0 (index b.read_position) (2 ^ 16) m a x (omega arith) (omega arith)
          (Points-start (omega arith)) (λ k u. q k (omega arith)) s
          (subst (λ t. call_at t ≡ some (a, m, x)) (omega arith) e))

  -- It passes over all unread bytes where the inner function goes on at each.
  pub iterate-end :
      ((k : ℕ)
        → k < read_len b
        → call_at k ≡ some (Action.continue_processing, k + 1, state (k + 1)))
      → iterate input inner (state 0)
        ≡ some (Action.needs_more_read, read_len b, state (read_len b))
  unfolding iterate
  iterate-end q = elim (dec_lt 0 (read_len b)) [
    | yes h ↦
        rw (same 0, read_to_end_lem b v room, some_bytes h)
          (rounds-end (read_len b) 0 (index b.read_position) (2 ^ 16) (omega arith) (omega arith)
            (λ k. Points-start k) (λ k u. q k (omega arith)))
    | no h ↦
        let z : read_len b ≡ 0 = omega arith in
        rw (same 0, read_to_end_lem b v room, no_bytes z)
          (ap (λ t. some (Action.needs_more_read, t, state t)) (sym z))
  ]
