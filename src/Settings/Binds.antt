-- ===== src/Settings/Binds.antt =====
-- Lists of binds are read as they are written.
use simple_cache.Base.{
  ℕ, zero, suc, ◌-◌, ◌^◌, ◌<◌, ◌≡◌, refl, sym, ◌∙◌, ap, arith, Bool, true, false, ◌||◌, Option,
  some, List, [], ◌∷◌, ◌++◌, append_assoc, append-nil, ◌==◌, if◌then◌else◌, ℤ, pos, length, take,
  ◌/◌, ltb, Bool-cases, inl, inr, length-append, take-append,
}
use simple_cache.Base.Decimal.{digits, decimal}
use simple_cache.Base.Printed.{scan_signed-decimal}
use simple_cache.Settings.{
  Family, Bind, no_bind, BindState, Parser, atoi, next_bind, address_char, port_char, first_char,
  parse_char, starts_path, parse_loop,
}

-- Bytes that the state `port` takes up as they are, and the two address states.
abbrev pub IsPortText : List ℕ → Type 0
IsPortText [] = Unit {0}
IsPortText (c ∷ cs) =
    ((c == b't') ≡ false) × ((c == 0) ≡ false) × ((c == b',') ≡ false) × IsPortText cs

abbrev pub IsAddress : List ℕ → Type 0
IsAddress [] = Unit {0}
IsAddress (c ∷ cs) = ((c == b':') ≡ false) × ((c == b',') ≡ false) × IsAddress cs

digits-IsPortText : (fuel n : ℕ) (rest : List ℕ) → IsPortText rest → IsPortText (digits fuel n rest)
unfolding digits
digits-IsPortText zero n rest h = h
digits-IsPortText (suc fuel) n rest h = elim (Bool-cases (ltb n 10)) [
  | inl t ↦ rw (digits, t) (ground arith, ground arith, ground arith, h)
  | inr f ↦
      rw (digits, f)
        (digits-IsPortText fuel (n / 10) _ (ground arith, ground arith, ground arith, h))
]

pub decimal-IsPortText : (n : ℕ) → IsPortText (decimal n)
unfolding decimal
decimal-IsPortText n = digits-IsPortText 20 n [] tt

atoi-decimal : (n : ℕ) → n < 2 ^ 31 → atoi (decimal n) ≡ pos n
unfolding atoi
atoi-decimal n l = rw (atoi, scan_signed-decimal n l) (ground arith)

-- An address and port as they are written, with what `inet_pton` stores for the address.
pub record Shown : Type 0 where
  pub start : ℕ
  pub rest : List ℕ
  pub stored : List ℕ
  pub number : ℕ
  pub is_transparent : Bool

abbrev pub port_text : ℕ → Bool → List ℕ
port_text n true = decimal n ++ b't' ∷ []
port_text n false = decimal n

abbrev pub text_of : Shown → List ℕ
text_of s = s.start ∷ s.rest ++ b':' ∷ port_text s.number s.is_transparent

abbrev pub bound : Shown → Bind
bound s = record {
  af = Family.inet;
  addr = s.stored;
  port = pos s.number;
  transparent = s.is_transparent;
}

cut-last : (xs : List ℕ) (c : ℕ) → take (length (xs ++ c ∷ []) - 1) (xs ++ c ∷ []) ≡ xs
cut-last xs c =
    ap (λ n. take n (xs ++ c ∷ [])) (omega (arith, length-append xs (c ∷ [])))
    ∙ take-append xs (c ∷ [])

pub starts_path-other :
    (c : ℕ) (cs : List ℕ) → (c == b'u') ≡ false → starts_path BindState.first c cs ≡ false
starts_path-other c [] h = refl
starts_path-other c (x ∷ cs) h = rw h refl

module _ (inet_pton : Family → List ℕ → Option (List ℕ)) where
  abbrev pub parser : BindState → List ℕ → List Bind → Bind → Parser
  parser s seen fin b = record { state = s; seen = seen; finished = fin; current = b }

  abbrev pub address_state : Bool → BindState
  address_state six = if six then BindState.ipv6 else BindState.ipv4

  pub address-run :
      (six : Bool) (a rest seen : List ℕ) (fin : List Bind) (b : Bind)
      → IsAddress a
      → parse_loop inet_pton false (a ++ rest) (parser (address_state six) seen fin b)
        ≡ parse_loop inet_pton false rest (parser (address_state six) (seen ++ a) fin b)
  unfolding parse_loop parse_char address_char
  address-run six [] rest seen fin b h =
      ap (λ t. parse_loop inet_pton false rest (parser (address_state six) t fin b))
        (sym (append-nil seen))
  address-run true (c ∷ cs) rest seen fin b h = rw h.0 (
      address-run true cs rest (seen ++ c ∷ []) fin b h.2
      ∙ ap (λ t. parse_loop inet_pton false rest (parser BindState.ipv6 t fin b))
          (append_assoc seen (c ∷ []) cs))
  address-run false (c ∷ cs) rest seen fin b h = rw h.0 (
      address-run false cs rest (seen ++ c ∷ []) fin b h.2
      ∙ ap (λ t. parse_loop inet_pton false rest (parser BindState.ipv4 t fin b))
          (append_assoc seen (c ∷ []) cs))

  pub port-run :
      (a rest seen : List ℕ) (fin : List Bind) (b : Bind)
      → IsPortText a
      → parse_loop inet_pton false (a ++ rest) (parser BindState.port seen fin b)
        ≡ parse_loop inet_pton false rest (parser BindState.port (seen ++ a) fin b)
  unfolding parse_loop parse_char port_char
  port-run [] rest seen fin b h =
      ap (λ t. parse_loop inet_pton false rest (parser BindState.port t fin b))
        (sym (append-nil seen))
  port-run (c ∷ cs) rest seen fin b h = rw h.0 (
      rw h.1 (
        rw h.2 (
          port-run cs rest (seen ++ c ∷ []) fin b h.3
          ∙ ap (λ t. parse_loop inet_pton false rest (parser BindState.port t fin b))
              (append_assoc seen (c ∷ []) cs))))

  -- What ends a bind.
  abbrev pub IsEnd : ℕ → Type 0
  IsEnd c = ((c == b't') ≡ false) × (((c == 0) || (c == b',')) ≡ true)

  -- An IPv4 bind whose address was read.
  abbrev addressed : List ℕ → ℤ → Bool → Bind
  addressed a n tr = record { af = Family.inet; addr = a; port = n; transparent = tr }

  port_end :
      (n e : ℕ) (tr : Bool) (rest : List ℕ) (fin : List Bind) (a : List ℕ)
      → n < 2 ^ 31
      → IsEnd e
      → (seen : List ℕ) × (parse_loop inet_pton false
            (port_text n tr ++ e ∷ rest)
            (parser BindState.port [] fin (addressed a (pos 0) false))
          ≡ parse_loop inet_pton false rest
              (next_bind (e == b',') (parser BindState.port seen fin (addressed a (pos n) tr))))
  unfolding parse_loop parse_char port_char
  port_end n e false rest fin a l h = (
    decimal n,
    port-run (decimal n) (e ∷ rest) [] fin (addressed a (pos 0) false) (decimal-IsPortText n)
        ∙ (rw h.0 (
            rw h.1 (
              ap
                (λ k. parse_loop inet_pton false rest (
                  next_bind (e == b',')
                    (parser BindState.port (decimal n) fin (addressed a k false))))
                (atoi-decimal n l)))),
  )
  port_end n e true rest fin a l h = (
    decimal n ++ b't' ∷ [],
    ap
          (λ t.
            parse_loop inet_pton false t (parser BindState.port [] fin (addressed a (pos 0) false)))
          (append_assoc (decimal n) (b't' ∷ []) (e ∷ rest))
        ∙ port-run (decimal n) (b't' ∷ e ∷ rest) [] fin (addressed a (pos 0) false)
            (decimal-IsPortText n)
        ∙ (rw h.0 (
            rw h.1 (
              ap
                (λ k. parse_loop inet_pton false rest (
                  next_bind (e == b',')
                    (parser BindState.port (decimal n ++ b't' ∷ []) fin (addressed a k true))))
                (ap atoi (cut-last (decimal n) b't') ∙ atoi-decimal n l)))),
  )

  -- What can be written: the address begins like no other kind of bind and is one to `inet_pton`.
  pub record IsShown (s : Shown) : Type 0 where
    pub no_bracket : (s.start == b'[') ≡ false
    pub no_path : (s.start == b'u') ≡ false
    pub address : IsAddress (s.start ∷ s.rest)
    pub valid : inet_pton Family.inet (s.start ∷ s.rest) ≡ some s.stored
    pub number_int : s.number < 2 ^ 31

  pub bind-run :
      (s : Shown) (e : ℕ) (rest : List ℕ) (fin : List Bind)
      → IsShown s
      → IsEnd e
      → (seen : List ℕ) × (parse_loop inet_pton false
            (text_of s ++ e ∷ rest)
            (parser BindState.first [] fin no_bind)
          ≡ parse_loop inet_pton false rest
              (next_bind (e == b',') (parser BindState.port seen fin (bound s))))
  unfolding parse_loop parse_char first_char address_char
  bind-run s e rest fin v h =
      let r = port_end s.number e s.is_transparent rest fin s.stored v.number_int h in
      let tail = b':' ∷ port_text s.number s.is_transparent in
      (
        r.0,
        ap (λ t. parse_loop inet_pton false (s.start ∷ t) (parser BindState.first [] fin no_bind))
              (append_assoc s.rest tail (e ∷ rest))
            ∙ (rw (parse_loop, starts_path-other s.start (s.rest ++ (tail ++ e ∷ rest)) v.no_path)
                (rw v.no_bracket (
                  rw (v.address.0) (
                    address-run false s.rest (tail ++ e ∷ rest) (s.start ∷ []) fin
                      (addressed [] (pos 0) false) v.address.2
                    ∙ (rw v.valid r.1))))),
      )
