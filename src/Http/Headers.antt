-- ===== src/Http/Headers.antt =====
-- The header lines of a request and what follows the last one: `http_read_headers` of
-- src/core/http_parse_cache.cpp.
use simple_cache.Base.{
  ℕ, ◌+◌, ◌%◌, ◌^◌, Bool, true, false, ◌&&◌, ◌||◌, Option, none, some, List, [], ◌∷◌, ◌==◌,
  if◌then◌else◌, ℤ, pos, pos_part, sub_ℕ, ltb_ℤ, eqb_ℤ, ◌+ℤ◌, ◌>>=◌, ◌>>◌, assert,
}
use simple_cache.ReadBuffer.{ReadBuffer, index, read_to_end, write_remaining}
use simple_cache.Store.{Ptr}
use simple_cache.Db.{Env}
use simple_cache.Db.Delete.{entry_delete_found, table_handle_delete}
use simple_cache.Http.{
  Action, Handler, World, Outside, Handled, Iterated, set_handler, set_state, move_input, on_db,
  next_n,
}
use simple_cache.Http.Methods.{
  http_admin, http_get, http_purge, http_put, http_delete, level_key, level_table, request_is,
}
use simple_cache.Http.Templates.{Template, codes}
use simple_cache.Http.Iterate.{iterate}
use simple_cache.Http.Register.{set_output, registered, write_response}
use simple_cache.Http.Method.{find_word}
use simple_cache.Http.Url.{is_get_or_head}

-- `HEADER_CONTENTLENGTH` and the other numbers of headers
abbrev pub header_content_length : ℕ
header_content_length = 1

abbrev pub header_xttl : ℕ
header_xttl = 2

abbrev pub header_xlimit : ℕ
header_xlimit = 3

abbrev pub header_xstart : ℕ
header_xstart = 4

abbrev pub header_xdelete : ℕ
header_xdelete = 5

-- The headers that a request of this type looks for, in the order of the comparisons.
unfoldable pub headers_of : ℕ → List (List ℕ × ℕ)
headers_of m =
    if request_is m (http_put + level_key)
    then (codes "Content-Length", header_content_length)
      ∷ (codes "X-Ttl", header_xttl)
      ∷ (codes "x-ttl", header_xttl)
      ∷ []
    else if request_is m (http_get + level_table)
    then (codes "X-Start", header_xstart)
      ∷ (codes "x-start", header_xstart)
      ∷ (codes "X-Limit", header_xlimit)
      ∷ (codes "x-limit", header_xlimit)
      ∷ []
    else if request_is m (http_purge + level_table)
    then (codes "X-Delete", header_xdelete) ∷ (codes "x-delete", header_xdelete) ∷ []
    else []

-- The bytes between the read position and the pointer at index `i`.
abbrev pub bytes_before : ReadBuffer → ℕ → ℤ
bytes_before b i =
    let bytes = sub_ℕ i (index b.read_position) in
    if ltb_ℤ bytes (pos 0) then read_to_end b +ℤ pos i else bytes

module _ {v : Env} (o : Outside v) where
  -- The first part of `http_read_headers`, at a ':'. A count below 0 is the length of no word.
  unfoldable pub end_of_name : ℕ → World v → Handled v
  unfolding headers_of
  end_of_name i w = do
    let bytes = pos_part (bytes_before w.conn.input i)
    h ← find_word w.conn.input bytes (headers_of w.conn.method)
    some (elim h [
      | none ↦ (Action.continue_processing, w)
      | some header ↦ (
        Action.needs_more_read,
        set_handler Handler.cache_handle_headers_extract
            (set_state header (move_input (bytes + 1) w)),
      )
    ])

  -- The router's entry level, for an entry that is there and a method other than PUT; `none` in the
  -- result goes on with the table level.
  unfoldable pub route_entry : Ptr → World v → Option (Option (Action × World v))
  unfolding write_response
  route_entry p w =
      if is_get_or_head w.conn.method
      then some (
          some (
            registered o (
              set_handler Handler.respond_expires
                (set_state 0 (set_output Template.headers200 w)))))
      else if request_is w.conn.method http_delete
      then (do
        r ← entry_delete_found p w.db
        some (some (write_response o Template.full200_deleted (record w { db = r.1 }))))
      else some none

  unfoldable pub route_put : World v → Handled v
  unfolding write_response
  route_put w = elim w.conn.target.entry [
    | none ↦ some (Action.needs_more_read, set_handler Handler.cache_handle_request_body w)
    | some p ↦ do
      e ← w.db.store.entries p
      some (
          if e.data_length == 0
          then write_response o Template.full_invalid_content_length w
          else (Action.needs_more_read, set_handler Handler.cache_handle_request_body w))
  ]

  -- The router's table level.
  unfoldable pub route_listing : World v → Handled v
  unfolding write_response
  route_listing w =
      assert (w.conn.input.read_position == w.conn.input.write_position)
      >> some (elim w.conn.target.entry [
        | none ↦ write_response o Template.full404 w
        | some t ↦
            registered o (
              set_handler Handler.respond_listingentries
                (set_output Template.headers200_conclose w))
      ])

  unfoldable pub route_table_delete : World v → Handled v
  unfolding write_response
  route_table_delete w = elim w.conn.target.entry [
    | none ↦ some (write_response o Template.full404 w)
    | some t ↦ do
      w1 ← on_db (table_handle_delete t) w
      some (write_response o Template.full200_deleted w1)
  ]

  unfoldable pub route_table : World v → Handled v
  unfolding route_listing route_table_delete write_response
  route_table w =
      if request_is w.conn.method http_get
      then route_listing w
      else if request_is w.conn.method http_delete
      then route_table_delete w
      else some (
          write_response o
            (if request_is w.conn.method http_purge || request_is w.conn.method http_admin
              then Template.bulk_ok
              else Template.full_unknown_request)
            w)

  -- The router: what `http_read_headers` does once the request is complete.
  unfoldable pub route : World v → Handled v
  unfolding route_entry route_put route_table write_response
  route w =
      if request_is w.conn.method level_key
      then (if request_is w.conn.method http_put then route_put w else elim w.conn.target.entry [
        | none ↦ some (write_response o Template.full404 w)
        | some p ↦ do r ← route_entry p w; elim r [ none ↦ route_table w | some done ↦ some done ]
      ])
      else route_table w

  -- `http_read_headers` at a newline; `temporary` is the connection's state.
  unfoldable pub end_of_line : ℕ → World v → Handled v
  unfolding route
  end_of_line n w =
      let w1 = move_input (n + 1) w in
      let w2 = set_state ((w1.conn.state + 1) % 2 ^ 32) w1 in
      if w2.conn.state == 2 then route w2 else some (Action.needs_more_read, w2)

  -- `http_read_headers`
  unfoldable pub read_headers : ℕ → ℕ → ℕ → World v → Iterated v
  unfolding end_of_name end_of_line
  read_headers n i c w = next_n n (
      if c == b':'
      then end_of_name i w
      else if c == b'\n'
      then end_of_line n w
      else some (Action.continue_processing, (if c == b'\r' then w else set_state 0 w)))

  abbrev pub in_headers : Handler → Bool
  in_headers Handler.cache_handle_headers = true
  in_headers _ = false

  -- `http_cache_handle_headers`
  unfoldable pub cache_handle_headers : World v → Handled v
  unfolding read_headers write_response
  cache_handle_headers w = do
    r ← iterate (λ x. x.conn.input) read_headers w
    some (
        if in_headers r.2.conn.handler && eqb_ℤ (write_remaining r.2.conn.input) (pos 0)
        then write_response o Template.full_request_too_large r.2
        else (r.0, r.2))
