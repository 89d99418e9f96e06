-- ===== src/ReadBuffer/Copy.antt =====
-- `rbuf_copyn` against the queue of unread bytes.
use simple_cache.Base.{
  ℕ, zero, suc, ◌+◌, ◌-◌, ◌≤◌, ◌<◌, ◌≡◌, refl, sym, ◌∙◌, ap, ap₂, arith, Bool, false, ◌&&◌, ltb,
  List, take, Option, some, ℤ, pos, min,
}
use native.Mathlib.Decide.{dec_le}
use simple_cache.ReadBuffer.{ReadBuffer, buffer_size, index, read_len, read_remaining, copyn}
use simple_cache.ReadBuffer.Bounds.{IsValid, contiguous, read_to_end_lem}
use simple_cache.ReadBuffer.Contents.{
  window, contents, take-window, take-window_all, window-append, memory-window,
}

module _ (b : ReadBuffer) (v : IsValid b) (room : read_len b < buffer_size) where
  -- Up to the end of the array one `memcpy` is enough.
  copyn-contiguous :
      (n : ℕ) → n ≤ contiguous b → copyn false b n ≡ some (window b.buffer b.read_position n, pos n)
  unfolding copyn
  copyn-contiguous n h = ground (
    arith,
    read_to_end_lem b v room,
    memory-window b b.read_position (index b.read_position) n refl,
  )

  -- Past it the second `memcpy` takes the rest, or all that is left.
  copyn-rollover :
      (n t : ℕ)
      → contiguous b < n
      → t ≡ min (n - contiguous b) (read_len b - contiguous b)
      → copyn false b n
        ≡ some (window b.buffer b.read_position (contiguous b + t), pos (contiguous b + t))
  unfolding copyn read_remaining
  copyn-rollover n zero h e =
      let k : contiguous b + 0 ≡ contiguous b = omega arith in
      rw k (
        ground (
          arith,
          read_to_end_lem b v room,
          memory-window b b.read_position (index b.read_position) (contiguous b) refl,
        ))
  copyn-rollover n (suc t) h e = ground (
    arith,
    read_to_end_lem b v room,
    memory-window b b.read_position (index b.read_position) (contiguous b) refl,
    memory-window b (b.read_position + contiguous b) 0 (suc t),
    window-append b.buffer b.read_position (contiguous b + suc t) (contiguous b) (suc t) refl,
  )

-- In a build without assertions it copies the oldest `n` bytes in order, or all if there are fewer.
pub copyn_release :
    (b : ReadBuffer) (n : ℕ)
    → IsValid b
    → read_len b < buffer_size
    → copyn false b n ≡ some (take n (contents b), pos (min n (read_len b)))
copyn_release b n v room = elim (dec_le n (contiguous b)) [
  | yes h ↦
      copyn-contiguous b v room n h
      ∙ agree n (omega arith)
          (sym (take-window b.buffer b.read_position n (read_len b) (omega arith)))
  | no h ↦ elim (dec_le n (read_len b)) [
    | yes k ↦
        copyn-rollover b v room n (n - contiguous b) (omega arith) (omega arith)
        ∙ agree (contiguous b + (n - contiguous b)) (omega arith) (
            ap (window b.buffer b.read_position) (omega arith)
            ∙ sym (take-window b.buffer b.read_position n (read_len b) k))
    | no k ↦
        copyn-rollover b v room n (read_len b - contiguous b) (omega arith) (omega arith)
        ∙ agree (contiguous b + (read_len b - contiguous b)) (omega arith) (
            ap (window b.buffer b.read_position) (omega arith)
            ∙ sym (take-window_all b.buffer b.read_position n (read_len b) (omega arith)))
  ]
]
  where
    agree :
        (m : ℕ)
        → m ≡ min n (read_len b)
        → window b.buffer b.read_position m ≡ take n (contents b)
        → ◌≡◌ {A = Option (List ℕ × ℤ)}
            (some (window b.buffer b.read_position m, pos m))
            (some (take n (contents b), pos (min n (read_len b))))
    agree m e f = ap₂ {C = Option (List ℕ × ℤ)} (λ xs k. some (xs, pos k)) f e

-- What the copy needs is behind the end of the array, but not all that is there.
abbrev pub is_partial : ReadBuffer → ℕ → Bool
is_partial b n = ltb (contiguous b) n && ltb n (read_len b)
