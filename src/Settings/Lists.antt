-- ===== src/Settings/Lists.antt =====
-- Lists of binds are read as they are written, and IPv6 addresses are not.
use simple_cache.Base.{
  ℕ, suc, ◌≡◌, refl, ◌∙◌, ap, ap₂, map, Bool, true, false, Option, none, some, List, [], ◌∷◌, ◌++◌,
  append_assoc, ◌==◌, if◌then◌else◌, ◌>>=◌, length, take, ◌-◌,
}
use simple_cache.Base.Decimal.{decimal}
use simple_cache.Settings.{
  Family, Bind, no_bind, BindState, Parser, count_binds, atoi, store_addr, parse_char, first_char,
  address_char, port_char, parse_loop, parse_binds,
}
use simple_cache.Settings.Binds.{
  IsAddress, IsPortText, Shown, text_of, bound, IsShown, starts_path-other, bind-run, address-run,
  port-run, decimal-IsPortText, port_text,
}

module _ (inet_pton : Family → List ℕ → Option (List ℕ)) where
  abbrev pub AllShown : List Shown → Type 0
  AllShown [] = Unit {0}
  AllShown (s ∷ ss) = IsShown inet_pton s × AllShown ss

-- Binds with commas between them.
abbrev pub binds_text : Shown → List Shown → List ℕ
binds_text s [] = text_of s
binds_text s (x ∷ xs) = text_of s ++ b',' ∷ binds_text x xs

-- Bytes of one bind.
abbrev IsBindText : List ℕ → Type 0
IsBindText [] = Unit {0}
IsBindText (c ∷ cs) = ((c == b',') ≡ false) × IsBindText cs

IsBindText-append : (xs ys : List ℕ) → IsBindText xs → IsBindText ys → IsBindText (xs ++ ys)
IsBindText-append [] ys a b = b
IsBindText-append (x ∷ xs) ys a b = (a.0, IsBindText-append xs ys a.1 b)

IsAddress-IsBindText : (a : List ℕ) → IsAddress a → IsBindText a
IsAddress-IsBindText [] h = tt
IsAddress-IsBindText (c ∷ cs) h = (h.1, IsAddress-IsBindText cs h.2)

IsPortText-IsBindText : (a : List ℕ) → IsPortText a → IsBindText a
IsPortText-IsBindText [] h = tt
IsPortText-IsBindText (c ∷ cs) h = (h.2, IsPortText-IsBindText cs h.3)

port_text-IsBindText : (n : ℕ) (tr : Bool) → IsBindText (port_text n tr)
port_text-IsBindText n false = IsPortText-IsBindText (decimal n) (decimal-IsPortText n)
port_text-IsBindText n true =
    IsBindText-append (decimal n) (b't' ∷ [])
      (IsPortText-IsBindText (decimal n) (decimal-IsPortText n)) (refl, tt)

text_of-IsBindText : (s : Shown) → IsAddress (s.start ∷ s.rest) → IsBindText (text_of s)
text_of-IsBindText s h =
    IsBindText-append (s.start ∷ s.rest) (b':' ∷ port_text s.number s.is_transparent)
      (IsAddress-IsBindText (s.start ∷ s.rest) h)
      (refl, port_text-IsBindText s.number s.is_transparent)

count-last : (a : List ℕ) → IsBindText a → count_binds a ≡ 1
unfolding count_binds
count-last [] h = refl
count-last (c ∷ cs) h = rw (count_binds, h.0) (count-last cs h.1)

count-next :
    (a rest : List ℕ) → IsBindText a → count_binds (a ++ b',' ∷ rest) ≡ suc (count_binds rest)
unfolding count_binds
count-next [] rest h = refl
count-next (c ∷ cs) rest h = rw (count_binds, h.0) (count-next cs rest h.1)

module _ (inet_pton : Family → List ℕ → Option (List ℕ)) where
  count-binds_text :
      (s : Shown) (ss : List Shown)
      → AllShown inet_pton (s ∷ ss)
      → count_binds (binds_text s ss) ≡ length (s ∷ ss)
  count-binds_text s [] v = count-last (text_of s) (text_of-IsBindText s v.0.address)
  count-binds_text s (x ∷ xs) v =
      count-next (text_of s) (binds_text x xs) (text_of-IsBindText s v.0.address)
      ∙ ap suc (count-binds_text x xs v.1)

  loop-binds_text :
      (s : Shown) (ss : List Shown) (fin : List Bind)
      → AllShown inet_pton (s ∷ ss)
      → (p : Parser) × (parse_loop inet_pton false
            (binds_text s ss ++ 0 ∷ [])
            (record { state = BindState.first; seen = []; finished = fin; current = no_bind })
          ≡ some p)
        × (p.finished ++ p.current ∷ [] ≡ fin ++ map bound (s ∷ ss))
  unfolding parse_loop
  loop-binds_text s [] fin v =
      let r = bind-run inet_pton s 0 [] fin v.0 (refl, refl) in
      (record { state = BindState.port; seen = r.0; finished = fin; current = bound s }, r.1, refl)
  loop-binds_text s (x ∷ xs) fin v =
      let r = bind-run inet_pton s b',' (binds_text x xs ++ 0 ∷ []) fin v.0 (refl, refl) in
      let next = loop-binds_text x xs (fin ++ bound s ∷ []) v.1 in
      (
        next.0,
        ap (λ t. parse_loop inet_pton false t start)
              (append_assoc (text_of s) (b',' ∷ binds_text x xs) (0 ∷ []))
            ∙ r.1
            ∙ next.1,
        next.2 ∙ append_assoc fin (bound s ∷ []) (map bound (x ∷ xs)),
      )
    where
      start : Parser
      start = record { state = BindState.first; seen = []; finished = fin; current = no_bind }

  -- A list of IPv4 addresses and ports, some with a `t` behind the port, is read as it is written: as
  -- many binds as there are, in their order, each with the address that `inet_pton` stores, its port and
  -- whether it is transparent. `inet_pton` takes the addresses, they have no comma and no colon, and the
  -- ports fit an `int`.
  pub parse_binds_lem :
      (s : Shown) (ss : List Shown)
      → AllShown inet_pton (s ∷ ss)
      → parse_binds inet_pton (binds_text s ss) ≡ some (length (s ∷ ss), map bound (s ∷ ss))
  unfolding parse_binds
  parse_binds_lem s ss v =
      let r = loop-binds_text s ss [] v in
      rw (parse_binds, r.1, ◌>>=◌) (ap₂ (λ n bs. some (n, bs)) (count-binds_text s ss v) r.2)

  abbrev six : Bind
  six = record no_bind { af = Family.inet6 }

  abbrev with_port : List ℕ → Bind → Bind
  with_port t b = record b { port = atoi t }

  abbrev state : BindState → List ℕ → Bind → Parser
  state s seen b = record { state = s; seen = seen; finished = []; current = b }

  -- The NUL ends the port of a bind that is not transparent.
  last_port :
      (rest : List ℕ) (b : Bind)
      → b.transparent ≡ false
      → parse_loop inet_pton false (0 ∷ []) (state BindState.port rest b)
        ≡ some (state BindState.port rest (with_port rest b))
  unfolding parse_loop parse_char port_char
  last_port rest b t =
      ap
        (λ tr. some (
          state BindState.port rest
            (record b { port = atoi (if tr then take (length rest - 1) rest else rest) })))
        t

  store_addr-transparent : (o : Option (List ℕ)) → (store_addr o six).transparent ≡ false
  store_addr-transparent none = refl
  store_addr-transparent (some a) = refl

  ipv6-run :
      (a rest : List ℕ)
      → IsAddress a
      → IsPortText rest
      → parse_loop inet_pton false
          ((b'[' ∷ a ++ b':' ∷ rest) ++ 0 ∷ [])
          (state BindState.first [] no_bind)
        ≡ some
            (state BindState.port rest (with_port rest (store_addr (inet_pton Family.inet6 a) six)))
  unfolding parse_loop parse_char first_char address_char
  ipv6-run a rest h k =
      let stored = store_addr (inet_pton Family.inet6 a) six in
      ap (λ t. parse_loop inet_pton false (b'[' ∷ t) (state BindState.first [] no_bind))
        (append_assoc a (b':' ∷ rest) (0 ∷ []))
      ∙ (rw (parse_loop, starts_path-other b'[' (a ++ (b':' ∷ rest ++ 0 ∷ [])) refl)
          (address-run inet_pton true a (b':' ∷ rest ++ 0 ∷ []) [] [] six h
            ∙ port-run inet_pton rest (0 ∷ []) [] [] stored k
            ∙ last_port rest stored (store_addr-transparent (inet_pton Family.inet6 a))))

  -- An IPv6 address in brackets is not read as one: `inet_pton` gets what stands before its first colon,
  -- and the port is what `atoi` makes of the rest of the address. The text is of one bind, and the rest
  -- has no comma, no NUL and no `t`.
  pub parse_binds_ipv6 :
      (a rest : List ℕ)
      → IsAddress a
      → IsPortText rest
      → parse_binds inet_pton (b'[' ∷ a ++ b':' ∷ rest)
        ≡ some (1, with_port rest (store_addr (inet_pton Family.inet6 a) six) ∷ [])
  unfolding parse_binds
  parse_binds_ipv6 a rest h k =
      let text : IsBindText (b'[' ∷ a ++ b':' ∷ rest) = (
        refl,
        IsBindText-append a (b':' ∷ rest) (IsAddress-IsBindText a h)
            (refl, IsPortText-IsBindText rest k),
      ) in
      rw (parse_binds, ipv6-run a rest h k, ◌>>=◌)
        (ap (λ n. some (n, with_port rest (store_addr (inet_pton Family.inet6 a) six) ∷ []))
          (count-last (b'[' ∷ a ++ b':' ∷ rest) text))
