-- ===== src/Examples/Binding.antt =====
-- A list of two addresses to bind to.
use simple_cache.Base.{ℕ, ◌≡◌, refl, true, false, Option, some, List, [], ◌∷◌, arith, map}
use simple_cache.Settings.{Family, parse_binds}
use simple_cache.Settings.Binds.{Shown, bound}
use simple_cache.Settings.Lists.{binds_text, parse_binds_lem}

-- Each text is an address, which is stored as it is written.
abbrev as_text : Family → List ℕ → Option (List ℕ)
as_text f t = some t

abbrev local : Shown
local = record {
  start = b'1';
  rest = b'2' ∷ [];
  stored = b'1' ∷ b'2' ∷ [];
  number = 80;
  is_transparent = true;
}

abbrev other : Shown
other = record {
  start = b'9';
  rest = [];
  stored = b'9' ∷ [];
  number = 8081;
  is_transparent = false;
}

parse_binds_lem_example :
    parse_binds as_text (binds_text local (other ∷ [])) ≡ some (2, map bound (local ∷ other ∷ []))
parse_binds_lem_example = parse_binds_lem as_text local (other ∷ []) (
  record {
    no_bracket = refl;
    no_path = refl;
    address = (refl, refl, (refl, refl, tt));
    valid = refl;
    number_int = omega arith;
  },
  (
    record {
      no_bracket = refl;
      no_path = refl;
      address = (refl, refl, tt);
      valid = refl;
      number_int = omega arith;
    },
    tt,
  ),
)
