-- ===== src/Examples/Buffers.antt =====
-- The read buffer of read_buffer.cpp on the inputs of tests/tests_rbuffer.cpp and a few more.
use simple_cache.Base.{
  ◌+◌, ◌-◌, ◌^◌, ◌≤◌, ◌≡◌, ◌↔◌, refl, arith, some, [], ◌∷◌, take, pos, ◌==◌, if◌then◌else◌,
}
use simple_cache.ReadBuffer.{
  ReadBuffer, buffer_size, index, read_len, cmpn, strntol, value, read_to_end, write_to_end,
  read_digits, add_digit, read_forward,
}
use simple_cache.ReadBuffer.Bounds.{IsValid, write_to_end_lem}
use simple_cache.ReadBuffer.Contents.{contents}
use simple_cache.ReadBuffer.Compare.{cmpn_lem}
use simple_cache.ReadBuffer.Number.{AllDigits, decimal, strntol_lem}

-- "GET 42" begins three bytes before the end of the array.
abbrev split_word : ReadBuffer
split_word = record {
  buffer = λ i.
      if i == 16381
      then b'G'
      else if i == 16382
      then b'E'
      else if i == 16383
      then b'T'
      else if i == 1
      then b'4'
      else if i == 2
      then b'2'
      else b' ';
  read_position = 16381;
  write_position = 16387;
}

-- "42" stands at the start.
abbrev number : ReadBuffer
number = record {
  buffer = λ i. if i == 0 then b'4' else if i == 1 then b'2' else b' ';
  read_position = 0;
  write_position = 6;
}

-- "7" is the last byte of the array, and a blank follows at its start.
abbrev last_digit : ReadBuffer
last_digit = record {
  buffer = λ i. if i == 16383 then b'7' else b' ';
  read_position = 16383;
  write_position = 16390;
}

-- Full, from index 100.
abbrev full : ReadBuffer
full = record { buffer = λ i. i; read_position = 100; write_position = 16484 }

split_word-IsValid : IsValid split_word
unfolding read_len
split_word-IsValid = omega arith

number-IsValid : IsValid number
unfolding read_len
number-IsValid = omega arith

last_digit-IsValid : IsValid last_digit
unfolding read_len
last_digit-IsValid = omega arith

full-IsValid : IsValid full
unfolding read_len
full-IsValid = omega arith

write_to_end_lem_example :
    (index 16387 + write_to_end split_word ≤ buffer_size)
    × (read_len split_word + write_to_end split_word ≤ buffer_size)
    × ((write_to_end split_word ≡ 0) ↔ (read_len split_word ≡ buffer_size))
write_to_end_lem_example = write_to_end_lem split_word split_word-IsValid

cmpn_lem_example :
    (cmpn split_word (b'G' ∷ b'E' ∷ b'T' ∷ b' ' ∷ []) 4 ≡ some (pos 0))
    ↔ (take 4 (contents split_word) ≡ b'G' ∷ b'E' ∷ b'T' ∷ b' ' ∷ [])
unfolding read_len
cmpn_lem_example =
    cmpn_lem split_word (b'G' ∷ b'E' ∷ b'T' ∷ b' ' ∷ []) split_word-IsValid (omega arith)
      (omega arith)

strntol_lem_example : (strntol number (pos 2) ≡ value 42) ↔ (
    AllDigits (take 2 (contents number))
    × (42 ≡ decimal (take 2 (contents number)))
    × (42 ≤ 2 ^ 31 - 1))
unfolding read_len
strntol_lem_example = strntol_lem number 2 42 number-IsValid (omega arith) (omega arith)

strntol-number : strntol number (pos 2) ≡ value 42
unfolding strntol read_to_end read_digits read_forward add_digit
strntol-number = refl
