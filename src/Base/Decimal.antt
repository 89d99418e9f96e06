-- ===== src/Base/Decimal.antt =====
-- What `snprintf` gives for the formats that src/core/http_respond.cpp and db.cpp use.
use simple_cache.Base.{
  ℕ, true, false, zero, suc, ◌+◌, ◌-◌, ◌/◌, ◌%◌, ◌^◌, List, [], ◌∷◌, ltb, if◌then◌else◌, ℤ, pos,
  negsuc,
}

-- The decimal digits of a number below 10 ^ fuel, before `rest`.
unfoldable pub digits : ℕ → ℕ → List ℕ → List ℕ
digits zero n rest = rest
digits (suc fuel) n rest = elim (ltb n 10) [
  | true ↦ (b'0' + n) ∷ rest
  | false ↦ digits fuel (n / 10) ((b'0' + n % 10) ∷ rest)
]

-- `%u` and `PRIu64`: a number of 64 bits has 20 digits at most.
unfoldable pub decimal : ℕ → List ℕ
unfolding digits
decimal n = digits 20 n []

-- `%d` and `%ld`
unfoldable pub signed_decimal : ℤ → List ℕ
unfolding decimal
signed_decimal (pos n) = decimal n
signed_decimal (negsuc n) = b'-' ∷ decimal (n + 1)

-- A word of 32 bits as an `int`
abbrev pub int_of : ℕ → ℤ
int_of n = if ltb n (2 ^ 31) then pos n else negsuc (2 ^ 32 - n - 1)
