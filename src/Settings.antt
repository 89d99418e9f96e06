-- ===== src/Settings.antt =====
-- The list of addresses to bind to, of src/core/settings.cpp. `inet_pton` is an argument: the address
-- that it stores for a text, or `none` where it stores none. `none` as a result is a fault: a path that
-- does not fit the address.
pub mod Binds
pub mod Lists
use simple_cache.Base.{
  ℕ, zero, suc, ◌+◌, ◌-◌, ◌^◌, Bool, true, false, ◌||◌, Option, none, some, List, [], ◌∷◌, ◌++◌,
  leb, ◌==◌, if◌then◌else◌, ℤ, pos, ◌>>=◌, ◌>>◌, assert, length, take,
}
use simple_cache.Base.Decimal.{int_of}
use simple_cache.Base.Scan.{scan_signed}

-- `af` of `struct scache_bind`, which is 0 at first
pub data Family : Type 0 where
  unset inet inet6 unix : Family

-- `struct scache_bind`, `addr` as the bytes that were stored there
pub record Bind : Type 0 where
  pub af : Family
  pub addr : List ℕ
  pub port : ℤ
  pub transparent : Bool

abbrev pub no_bind : Bind
no_bind = record { af = Family.unset; addr = []; port = pos 0; transparent = false }

-- `bind_parse_state`
pub data BindState : Type 0 where
  first ipv4 ipv6 unix_path port : BindState

-- The variables of the loop: the state, the text from `state_start` up to `i`, the binds before
-- `current`, and `*current`.
pub record Parser : Type 0 where
  pub state : BindState
  pub seen : List ℕ
  pub finished : List Bind
  pub current : Bind

-- The number of binds that memory is allocated for.
unfoldable pub count_binds : List ℕ → ℕ
count_binds [] = 1
count_binds (c ∷ cs) = let rest = count_binds cs in if c == b',' then suc rest else rest

-- `atoi`
unfoldable pub atoi : List ℕ → ℤ
atoi t = elim (scan_signed t) [ none ↦ pos 0 | some r ↦ int_of r.0 ]

-- `sizeof(struct sockaddr_un)`
abbrev pub addr_size : ℕ
addr_size = 110

abbrev pub keep : ℕ → Parser → Parser
keep c p = record p { seen = p.seen ++ c ∷ [] }

-- `current++`, where the bind ends with a comma
abbrev pub next_bind : Bool → Parser → Parser
next_bind comma p =
    if comma
    then record {
      state = BindState.first;
      seen = [];
      finished = p.finished ++ p.current ∷ [];
      current = no_bind;
    }
    else p

abbrev pub store_addr : Option (List ℕ) → Bind → Bind
store_addr none b = b
store_addr (some a) b = record b { addr = a }

-- `u:` at the start of a bind
abbrev pub starts_path : BindState → ℕ → List ℕ → Bool
starts_path BindState.first c (x ∷ cs) = if c == b'u' then x == b':' else false
starts_path _ c cs = false

abbrev pub begin_path : Parser → Parser
begin_path p = record p {
  state = BindState.unix_path;
  seen = [];
  current = record p.current { af = Family.unix };
}

abbrev pub start_parser : Parser
start_parser = record { state = BindState.first; seen = []; finished = []; current = no_bind }

module _ (inet_pton : Family → List ℕ → Option (List ℕ)) where
  -- The states `ipv4` and `ipv6`
  unfoldable pub address_char : ℕ → Parser → Parser
  address_char c p =
      if c == b':'
      then record p {
        state = BindState.port;
        seen = [];
        current = store_addr (inet_pton p.current.af p.seen) p.current;
      }
      else keep c p

  -- The state `unix_path`; the NUL at the end of the text ends a path too.
  unfoldable pub path_char : ℕ → Parser → Option Parser
  path_char c p =
      if (c == 0) || (c == b',')
      then assert (leb (length p.seen) addr_size)
        >> some (
            next_bind (c == b',')
              (record p { current = record p.current { addr = p.seen; port = pos 0 } }))
      else some (keep c p)

  -- The state `port`. After a `t` the last byte before the end is cut off.
  unfoldable pub port_char : ℕ → Parser → Parser
  port_char c p =
      if c == b't'
      then keep c (record p { current = record p.current { transparent = true } })
      else if (c == 0) || (c == b',')
      then next_bind (c == b',') (record p {
        current = record p.current {
          port = atoi (if p.current.transparent then take (length p.seen - 1) p.seen else p.seen);
        };
      })
      else keep c p

  -- The state `first`, which goes on to `ipv4` with the same byte.
  unfoldable pub first_char : ℕ → Parser → Parser
  first_char c p =
      if c == b'['
      then record p {
        state = BindState.ipv6;
        seen = [];
        current = record p.current { af = Family.inet6 };
      }
      else address_char c
          (record p { state = BindState.ipv4; current = record p.current { af = Family.inet } })

  unfoldable pub parse_char : BindState → ℕ → Parser → Option Parser
  parse_char BindState.first c p = some (first_char c p)
  parse_char BindState.ipv4 c p = some (address_char c p)
  parse_char BindState.ipv6 c p = some (address_char c p)
  parse_char BindState.unix_path c p = path_char c p
  parse_char BindState.port c p = some (port_char c p)

  -- The loop over the text and its NUL. Where a path begins, the byte after it is skipped.
  unfoldable pub parse_loop : Bool → List ℕ → Parser → Option Parser
  parse_loop skip [] p = some p
  parse_loop true (c ∷ cs) p = parse_loop false cs p
  parse_loop false (c ∷ cs) p = elim (starts_path p.state c cs) [
    | true ↦ parse_loop true cs (begin_path p)
    | false ↦ do p1 ← parse_char p.state c p; parse_loop false cs p1
  ]

  -- `parse_binds`: how many binds there is memory for, and those that were reached; the others are 0.
  unfoldable pub parse_binds : List ℕ → Option (ℕ × List Bind)
  parse_binds text = do
    p ← parse_loop false (text ++ 0 ∷ []) start_parser
    some (count_binds text, p.finished ++ p.current ∷ [])
