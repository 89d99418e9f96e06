-- ===== src/Http/Newlines/Skip.antt =====
-- `skip_over_newlines` at the end of the array.
use simple_cache.Base.{
  ℕ, zero, suc, ◌+◌, ◌*◌, ◌≤◌, ◌<◌, ◌≡◌, ◌⊎◌, refl, ap, ◌∙◌, arith, false, not, ◌&&◌, none, some,
  ◌==◌, pos, pos_part, eqb_ℤ, ◌-ℤ◌, ◌>>=◌,
}
use simple_cache.ReadBuffer.{ReadBuffer, buffer_size, index, read_len, read_remaining, read_move}
use simple_cache.ReadBuffer.Bounds.{IsValid, contiguous, read_to_end_lem, read_move-IsValid}
use simple_cache.Http.Iterate.{load_byte}
use simple_cache.Http.Newlines.{skip_loop, skip_over_newlines}

abbrev pub IsNewline : ℕ → Type 0
IsNewline c = (c ≡ b'\r') ⊎ (c ≡ b'\n')

skip_step :
    (n i : ℕ) (b : ReadBuffer)
    → i < buffer_size
    → IsNewline (b.buffer i)
    → skip_loop (suc n) i b ≡ skip_loop n (i + 1) (read_move b 1)
unfolding skip_loop
skip_step n i b h l = rw (load, ◌>>=◌) (rw other refl)
  where
    load : load_byte b i ≡ some (b.buffer i)
    load = ground arith

    other : (not (b.buffer i == b'\r') && not (b.buffer i == b'\n')) ≡ false
    other = ground arith

-- The loop over `n` newlines of the array takes them out and leaves the pointer after them.
skip_loop-all :
    (n i : ℕ) (b : ReadBuffer)
    → IsValid b
    → n ≤ read_len b
    → i + n ≤ buffer_size
    → ((k : ℕ) → i ≤ k → k < i + n → IsNewline (b.buffer k))
    → (c : ReadBuffer) × (skip_loop n i b ≡ some (false, i + n, c)) × (read_len c + n ≡ read_len b)
unfolding skip_loop read_move
skip_loop-all zero i b v l h q = (b, ap (λ t. some (false, t, b)) (omega arith), omega arith)
skip_loop-all (suc n) i b v l h q =
    let moved = read_move-IsValid b 1 v (omega arith) in
    let rest =
      skip_loop-all n (i + 1) (read_move b 1) moved.0 (omega (arith, moved.1)) (omega arith)
        (λ k x y. q k (omega arith) (omega arith)) in
    (
      rest.0,
      skip_step n i b (omega arith) (q i (omega arith) (omega arith))
          ∙ rest.1
          ∙ ap (λ t. some (false, t, rest.0)) (omega arith),
      omega (arith, moved.1, rest.2),
    )

skip_loop-outside : (n i : ℕ) (b : ReadBuffer) → 0 < n → buffer_size ≤ i → skip_loop n i b ≡ none
unfolding skip_loop
skip_loop-outside zero i b h l = absurd (omega arith)
skip_loop-outside (suc n) i b h l = rw (load, ◌>>=◌) refl
  where
    load : load_byte b i ≡ none
    load = ground arith

-- The two loops, where the first takes all bytes up to the end of the array.
run :
    (b c : ReadBuffer)
    → IsValid b
    → read_len b < buffer_size
    → 2 * contiguous b < read_len b
    → skip_loop (contiguous b) (index b.read_position) b
      ≡ some (false, index b.read_position + contiguous b, c)
    → read_len c + contiguous b ≡ read_len b
    → skip_over_newlines b ≡ none
unfolding skip_over_newlines read_remaining
run b c v room h e l =
    rw (read_to_end_lem b v room, some_bytes)
      (rw (e, ◌>>=◌)
        (rw
          (skip_loop-outside (pos_part (pos (read_len c) -ℤ pos (contiguous b)))
            (index b.read_position + contiguous b) c more outside)
          refl))
  where
    some_bytes : eqb_ℤ (pos (contiguous b)) (pos 0) ≡ false
    some_bytes = ground arith

    more : 0 < pos_part (pos (read_len c) -ℤ pos (contiguous b))
    more = ground arith

    outside : buffer_size ≤ index b.read_position + contiguous b
    outside = omega arith

-- In a valid buffer that is not full, whose unread bytes up to the end of the array are newlines and
-- fewer than those that follow at its start, `skip_over_newlines` reads behind the array: the
-- pointer is not reset.
pub skip_over_newlines-outside :
    (b : ReadBuffer)
    → IsValid b
    → read_len b < buffer_size
    → 2 * contiguous b < read_len b
    → ((k : ℕ) → index b.read_position ≤ k → k < buffer_size → IsNewline (b.buffer k))
    → skip_over_newlines b ≡ none
skip_over_newlines-outside b v room h q =
    let first =
      skip_loop-all (contiguous b) (index b.read_position) b v (omega arith) (omega arith)
        (λ k x y. q k x (omega arith)) in
    run b first.0 v room h first.1 first.2
