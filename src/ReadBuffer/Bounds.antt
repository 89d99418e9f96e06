-- ===== src/ReadBuffer/Bounds.antt =====
-- The position arithmetic of read_buffer.cpp and the bounds of the array.
use simple_cache.Base.{ℕ, ◌+◌, ◌-◌, ◌^◌, ◌≤◌, ◌<◌, ◌≡◌, ◌↔◌, ◌≢◌, arith, none, min, pos}
use simple_cache.ReadBuffer.{
  ReadBuffer, buffer_size, index, read_len, init, read_to_end, write_to_end, read_move, write_move,
  memory,
}

-- What `rbuf_debug_check` asserts, with the range of the position fields.
pub record IsValid (b : ReadBuffer) : Type 0 where
  pub read_u16 : b.read_position < 2 ^ 16
  pub write_u16 : b.write_position < 2 ^ 16
  pub bounded : read_len b ≤ buffer_size

-- the unread bytes up to the end of the array
abbrev pub contiguous : ReadBuffer → ℕ
contiguous b = min (read_len b) (buffer_size - index b.read_position)

pub init-IsValid : (b : ReadBuffer) → IsValid (init b) × (read_len (init b) ≡ 0)
unfolding init read_len
init-IsValid b = omega arith

-- Taking out `by` unread bytes of a valid buffer, at most as many as there are, leaves a valid
-- buffer with `by` fewer.
pub read_move-IsValid :
    (b : ReadBuffer) (by : ℕ)
    → IsValid b
    → by ≤ read_len b
    → IsValid (read_move b by) × (read_len (read_move b by) + by ≡ read_len b)
unfolding read_move read_len
read_move-IsValid b by v h = omega arith

-- Adding `by` bytes to a valid buffer that has room for them leaves a valid buffer with `by` more.
pub write_move-IsValid :
    (b : ReadBuffer) (by : ℕ)
    → IsValid b
    → read_len b + by ≤ buffer_size
    → IsValid (write_move b by) × (read_len (write_move b by) ≡ read_len b + by)
unfolding write_move read_len
write_move-IsValid b by v h = omega arith

-- The span that a socket read may fill stays in the array and in the free room, and is empty
-- exactly when the buffer, which is valid, is full.
pub write_to_end_lem :
    (b : ReadBuffer)
    → IsValid b
    → (index b.write_position + write_to_end b ≤ buffer_size)
      × (read_len b + write_to_end b ≤ buffer_size)
      × ((write_to_end b ≡ 0) ↔ (read_len b ≡ buffer_size))
unfolding write_to_end read_len
write_to_end_lem b v = (ground arith, ground arith, ground arith)

-- In a valid buffer that is not full the span that may be read at once is the unread bytes before
-- the end of the array.
pub read_to_end_lem :
    (b : ReadBuffer) → IsValid b → read_len b < buffer_size → read_to_end b ≡ pos (contiguous b)
unfolding read_to_end read_len
read_to_end_lem b v h = ground arith

-- In a valid full buffer whose oldest byte is not at index 0 the span that `rbuf_read_to_end` gives
-- leaves the array, or is negative.
pub read_to_end_full :
    (b : ReadBuffer)
    → IsValid b
    → read_len b ≡ buffer_size
    → index b.read_position ≢ 0
    → memory b (index b.read_position) (read_to_end b) ≡ none
unfolding read_to_end read_len memory
read_to_end_full b v h k = ground arith
