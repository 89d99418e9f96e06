-- ===== src/ReadBuffer.antt =====
-- src/core/read_buffer.h and read_buffer.cpp: the circular input buffer of a connection, built
-- without DEBUG_BUILD and with NDEBUG, so that `assert` and the debug counters are gone.
pub mod Bounds
pub mod Contents
pub mod Copy
pub mod Compare
pub mod Number
use simple_cache.Base.{
  ℕ, zero, suc, ◌+◌, ◌-◌, ◌*◌, ◌%◌, ◌^◌, true, false, ◌&&◌, ◌||◌, not, Option, none, some, List, [],
  ◌∷◌, ◌++◌, ltb, leb, ◌==◌, if◌then◌else◌, ℤ, pos, negsuc, sub_ℕ, pos_part, ltb_ℤ, ◌-ℤ◌, ◌+ℤ◌,
  eqb_ℤ, Bool,
}

-- `BUFFER_SIZE`, at its default
abbrev pub buffer_size : ℕ
buffer_size = 16384

-- `struct read_buffer`. The array is its byte at each index; an index from `buffer_size` on is
-- outside it. The positions are `uint16_t`s that run freely.
pub record ReadBuffer : Type 0 where
  pub buffer : ℕ → ℕ
  pub read_position : ℕ
  pub write_position : ℕ

-- x & (BUFFER_SIZE - 1)
abbrev pub index : ℕ → ℕ
index x = x % buffer_size

-- `RBUF_READLEN`: (uint16_t)(write_position - read_position)
unfoldable pub read_len : ReadBuffer → ℕ
read_len b = (b.write_position + 2 ^ 16 - b.read_position) % 2 ^ 16

-- `rbuf_init`
unfoldable pub init : ReadBuffer → ReadBuffer
init b = record b { read_position = 0; write_position = 0 }

-- `rbuf_read_remaining`
unfoldable pub read_remaining : ReadBuffer → ℕ
read_remaining b = read_len b

-- `rbuf_read_to_end`: the subtraction of the first branch is one of `int`s.
unfoldable pub read_to_end : ReadBuffer → ℤ
read_to_end b =
    let to_end = index b.read_position in
    if leb to_end (index b.write_position)
    then sub_ℕ b.write_position b.read_position
    else pos (buffer_size - to_end)

-- `rbuf_write_remaining`
unfoldable pub write_remaining : ReadBuffer → ℤ
write_remaining b = sub_ℕ buffer_size (read_len b)

-- `rbuf_write_to_end`
unfoldable pub write_to_end : ReadBuffer → ℕ
write_to_end b =
    let to_end = index b.write_position in
    let read_pos = index b.read_position in
    if leb to_end read_pos && not (b.read_position == b.write_position)
    then read_pos - to_end
    else buffer_size - to_end

-- `RBUF_READMOVE` and `RBUF_WRITEMOVE`
unfoldable pub read_move : ReadBuffer → ℕ → ReadBuffer
read_move b by = record b { read_position = (b.read_position + by) % 2 ^ 16 }

unfoldable pub write_move : ReadBuffer → ℕ → ReadBuffer
write_move b by = record b { write_position = (b.write_position + by) % 2 ^ 16 }

-- The `n` bytes of the array from index `i` on, without a test.
unfoldable pub bytes_at : (ℕ → ℕ) → ℕ → ℕ → List ℕ
bytes_at f i zero = []
bytes_at f i (suc n) = f i ∷ bytes_at f (i + 1) n

-- What `memcpy` reads there: `none` where the read leaves the array, or the count is negative.
unfoldable pub memory : ReadBuffer → ℕ → ℤ → Option (List ℕ)
memory b i (pos n) = if leb (i + n) buffer_size then some (bytes_at b.buffer i n) else none
memory b i (negsuc n) = none

-- The second part of `rbuf_copyn`: what has rolled over to the start of the array.
copy_rollover : Bool → ReadBuffer → List ℕ → ℤ → ℤ → ℤ → Option (List ℕ × ℤ)
copy_rollover asserts b first to_read n to_end =
    if eqb_ℤ to_end (pos 0)
    then some (first, to_read +ℤ to_end)
    else if asserts && ltb_ℤ n to_end
    then none
    else (let count = if ltb_ℤ n to_end then n else to_end in
        elim (memory b 0 count) [
          | none ↦ none
          | some second ↦ some (first ++ second, to_read +ℤ count)
        ])

-- `rbuf_copyn`: the bytes written through `dest`, and the result. The first argument is whether the
-- build has assertions: the one in the second part fails where the code has a branch for its
-- opposite.
unfoldable pub copyn : Bool → ReadBuffer → ℕ → Option (List ℕ × ℤ)
unfolding copy_rollover
copyn asserts b n =
    let to_end = read_to_end b in
    if n == 0
    then some ([], pos 0)
    else (let to_read = if ltb_ℤ to_end (pos n) then to_end else pos n in
        elim (memory b (index b.read_position) to_read) [
          | none ↦ none
          | some first ↦
              if eqb_ℤ (pos n -ℤ to_read) (pos 0)
              then some (first, to_read)
              else copy_rollover asserts b first to_read (pos n -ℤ to_read)
                  (pos (read_remaining b) -ℤ to_end)
        ])

-- `strncmp` of a C string and `n` bytes; the end of a list stands for its terminator.
abbrev pub char_at : List ℕ → ℕ
char_at [] = 0
char_at (c ∷ cs) = c

abbrev pub skip : List ℕ → List ℕ
skip [] = []
skip (c ∷ cs) = cs

unfoldable pub strncmp : List ℕ → List ℕ → ℕ → ℤ
strncmp xs ys zero = pos 0
strncmp xs ys (suc n) = elim (char_at xs == char_at ys) [
  | false ↦ sub_ℕ (char_at xs) (char_at ys)
  | true ↦ elim (char_at xs == 0) [ true ↦ pos 0 | false ↦ strncmp (skip xs) (skip ys) n ]
]

abbrev pub skip_n : ℕ → List ℕ → List ℕ
skip_n zero xs = xs
skip_n (suc n) xs = skip_n n (skip xs)

-- The second part of `rbuf_cmpn`, after `done` bytes compared with `result`.
compare_rest : ReadBuffer → List ℕ → ℕ → ℕ → ℤ → Option ℤ
compare_rest b with n done result =
    if (n - done == 0) || not (eqb_ℤ result (pos 0))
    then some result
    else elim (memory b 0 (pos (n - done))) [
      | none ↦ none
      | some second ↦ some (strncmp (skip_n done with) second (n - done))
    ]

-- `rbuf_cmpn`: `none` where the bytes to compare are not all within the array.
unfoldable pub cmpn : ReadBuffer → List ℕ → ℕ → Option ℤ
unfolding compare_rest
cmpn b with n =
    if n == 0
    then some (pos 0)
    else if ltb (read_remaining b) n
    then some (negsuc 0)
    else (let to_end = if ltb_ℤ (pos n) (read_to_end b) then pos n else read_to_end b in
        elim (memory b (index b.read_position) to_end) [
          | none ↦ none
          | some first ↦
              compare_rest b with n (pos_part to_end) (strncmp with first (pos_part to_end))
        ])

-- The outcome of `rbuf_strntol`: `fault` is a read outside the array or an `int` overflow.
pub data Parsed : Type 0 where
  fault reject : Parsed
  value : ℕ → Parsed

-- One round of its loops: `result *= 10`, the digit test, `result += number`.
abbrev pub int_max : ℕ
int_max = 2 ^ 31 - 1

unfoldable pub add_digit : ℕ → ℕ → Parsed
add_digit result c =
    if ltb int_max (result * 10)
    then fault
    else if ltb c b'0' || ltb b'9' c
    then reject
    else if ltb int_max (result * 10 + (c - b'0'))
    then fault
    else value (result * 10 + (c - b'0'))

abbrev pub and_then : Parsed → (ℕ → Parsed) → Parsed
and_then fault k = fault
and_then reject k = reject
and_then (value r) k = k r

-- `while (n--)` from index `i` on
unfoldable pub read_digits : ReadBuffer → ℕ → ℕ → ℕ → Parsed
unfolding add_digit
read_digits b i zero result = value result
read_digits b i (suc n) result = elim (ltb i buffer_size) [
  | false ↦ fault
  | true ↦ and_then (add_digit result (b.buffer i)) (read_digits b (i + 1) n)
]

-- The first loop; a negative count runs down from below zero, out of the array.
unfoldable pub read_forward : ReadBuffer → ℤ → Parsed
read_forward b (pos n) = read_digits b (index b.read_position) n 0
read_forward b (negsuc n) = fault

-- `rbuf_strntol`. The first loop leaves `n` at -1, so the second reads one byte more than remain.
unfoldable pub strntol : ReadBuffer → ℤ → Parsed
unfolding read_forward
strntol b max =
    let capped = not (eqb_ℤ max (negsuc 0)) && ltb_ℤ max (read_to_end b) in
    let n = if capped then max else read_to_end b in
    let max' = if capped then pos 0 else max in
    and_then (read_forward b n)
      λ r. if eqb_ℤ max' (pos 0) then value r else read_digits b 0 (read_remaining b + 1) r
