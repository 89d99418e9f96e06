-- ===== src/Base/Scan.antt =====
-- What `sscanf` reads for the formats that src/core/db.cpp uses. A text ends at its NUL, or with the
-- list.
use simple_cache.Base.{
  ℕ, ◌+◌, ◌-◌, ◌*◌, ◌%◌, ◌^◌, min, Bool, true, false, ◌&&◌, ◌||◌, Option, none, some, List, [], ◌∷◌,
  leb, ◌==◌, if◌then◌else◌, ◌>>=◌,
}

-- `isspace`
abbrev pub is_space : ℕ → Bool
is_space c = (c == 32) || (leb 9 c && leb c 13)

abbrev pub is_digit : ℕ → Bool
is_digit c = leb b'0' c && leb c b'9'

unfoldable pub skip_space : List ℕ → List ℕ
skip_space [] = []
skip_space (c ∷ cs) = elim (is_space c) [ true ↦ skip_space cs | false ↦ c ∷ cs ]

-- The bytes up to white space or the end.
unfoldable pub word : List ℕ → List ℕ
word [] = []
word (c ∷ cs) = elim (is_space c || (c == 0)) [ true ↦ [] | false ↦ c ∷ word cs ]

-- `%s` at the end of a format: one byte at least
unfoldable pub scan_word : List ℕ → Option (List ℕ)
unfolding skip_space word
scan_word t = elim (word (skip_space t)) [ [] ↦ none | c ∷ cs ↦ some (c ∷ cs) ]

-- The value of digits after others of the value `r`, and what stands behind them.
unfoldable pub more_digits : ℕ → List ℕ → ℕ × List ℕ
more_digits r [] = (r, [])
more_digits r (c ∷ cs) = elim (is_digit c) [
  | true ↦ more_digits (r * 10 + (c - b'0')) cs
  | false ↦ (r, c ∷ cs)
]

-- One digit at least.
unfoldable pub magnitude : List ℕ → Option (ℕ × List ℕ)
unfolding more_digits
magnitude [] = none
magnitude (c ∷ cs) = if is_digit c then some (more_digits (c - b'0') cs) else none

-- The low 32 bits of what `strtoul` gives, and `strtol`, for a sign and a magnitude.
abbrev pub unsigned : Bool → ℕ → ℕ
unsigned negative n =
    if leb (2 ^ 64) n then 2 ^ 32 - 1 else if negative then (2 ^ 64 - n) % 2 ^ 32 else n % 2 ^ 32

abbrev pub signed : Bool → ℕ → ℕ
signed negative n =
    if negative then (2 ^ 64 - min n (2 ^ 63)) % 2 ^ 32 else min n (2 ^ 63 - 1) % 2 ^ 32

abbrev converted : (Bool → ℕ → ℕ) → Bool → Option (ℕ × List ℕ) → Option (ℕ × List ℕ)
converted conv negative r = r >>= λ x. some (conv negative x.0, x.1)

-- A sign, which may be missing, and a number.
unfoldable pub after_space : (Bool → ℕ → ℕ) → List ℕ → Option (ℕ × List ℕ)
unfolding magnitude
after_space conv [] = none
after_space conv (c ∷ cs) =
    if c == b'-'
    then converted conv true (magnitude cs)
    else if c == b'+'
    then converted conv false (magnitude cs)
    else converted conv false (magnitude (c ∷ cs))

-- `%u`, and `%d`, in 32 bits
unfoldable pub scan_unsigned : List ℕ → Option (ℕ × List ℕ)
unfolding skip_space after_space
scan_unsigned t = after_space unsigned (skip_space t)

unfoldable pub scan_signed : List ℕ → Option (ℕ × List ℕ)
unfolding skip_space after_space
scan_signed t = after_space signed (skip_space t)

-- A `:` of the format
abbrev pub scan_colon : List ℕ → Option (List ℕ)
scan_colon [] = none
scan_colon (c ∷ cs) = if c == b':' then some cs else none
