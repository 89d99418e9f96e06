-- ===== src/Http/Iterate.antt =====
-- `RBUF_ITERATE` of src/core/read_buffer.h, over a state that has the buffer. The loop runs on fuel,
-- one round more than a buffer can have unread bytes; `none` is a fault or the end of the fuel.
pub mod Scan
pub mod Until
use simple_cache.Base.{
  ℕ, zero, suc, ◌+◌, ◌^◌, Bool, true, false, Option, none, some, ltb, if◌then◌else◌, ℤ, pos, eqb_ℤ,
  ◌>>=◌,
}
use simple_cache.ReadBuffer.{ReadBuffer, buffer_size, index, read_remaining, read_to_end}
use simple_cache.Http.{Action}

-- `*buffer`, where `buffer` points to index `i` of the array.
abbrev pub load_byte : ReadBuffer → ℕ → Option ℕ
load_byte b i = if ltb i buffer_size then some (b.buffer i) else none

module _ {ℓ} {W : Type ℓ} where
  -- What follows the loop: `continue_processing` becomes `needs_more_read`.
  abbrev pub ended : Action → ℕ → W → Action × ℕ × W
  ended Action.continue_processing n w = (Action.needs_more_read, n, w)
  ended a n w = (a, n, w)

  -- The loop with the pointer at index `i`. The inner function is given `n`, the pointer and the
  -- byte, and returns the action, the `n` of the next round and the state.
  unfoldable pub rounds :
      (W → ReadBuffer)
      → (ℕ → ℕ → ℕ → W → Option (Action × ℕ × W))
      → ℤ
      → ℕ
      → ℕ
      → ℕ
      → W
      → Option (Action × ℕ × W)
  rounds input inner end zero n i w = none
  rounds input inner end (suc fuel) n i w = elim (ltb n (read_remaining (input w))) [
    | false ↦ some (Action.needs_more_read, n, w)
    | true ↦ do
      let j = if eqb_ℤ end (pos n) then 0 else i
      c ← load_byte (input w) j
      r ← inner n j c w
      elim r.0 [
        | Action.continue_processing ↦ rounds input inner end fuel r.1 (j + 1) r.2
        | a ↦ some (a, r.1, r.2)
      ]
  ]

  -- `RBUF_ITERATE`, with the result that `ret` and `n` have after it
  unfoldable pub iterate :
      (W → ReadBuffer) → (ℕ → ℕ → ℕ → W → Option (Action × ℕ × W)) → W → Option (Action × ℕ × W)
  unfolding rounds
  iterate input inner w =
      let end = read_to_end (input w) in
      if eqb_ℤ end (pos 0)
      then some (Action.needs_more_read, 0, w)
      else rounds input inner end (2 ^ 16) 0 (index (input w).read_position) w
