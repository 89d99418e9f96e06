-- ===== src/Http/Extract.antt =====
-- The value of a header: `http_read_header_extraction` of src/core/http_parse_cache.cpp.
use simple_cache.Base.{
  ℕ, ◌+◌, ◌-◌, ◌%◌, ◌^◌, false, ◌&&◌, ◌||◌, Option, none, some, ◌==◌, if◌then◌else◌, ℤ, pos, negsuc,
  sub_ℕ, ◌+ℤ◌, ◌>>=◌, ◌⊎◌, inl, inr,
}
use simple_cache.ReadBuffer.{ReadBuffer, Parsed, index, read_move, strntol}
use simple_cache.Store.{Ptr}
use simple_cache.Db.{Env, modify_entry}
use simple_cache.Db.Refs.{entry_deref}
use simple_cache.Db.Delete.{entry_delete_found}
use simple_cache.Db.Lookup.{entry_get_delete}
use simple_cache.Db.Targets.{write_allocate}
use simple_cache.Http.{
  Action, Handler, World, Outside, Handled, Iterated, on_conn, set_handler, set_state, set_start,
  set_limit, on_target, move_input, on_db, next_n,
}
use simple_cache.Http.Methods.{http_get, http_purge, http_put, level_key, level_table, request_is}
use simple_cache.Http.Templates.{Template}
use simple_cache.Http.Iterate.{iterate}
use simple_cache.Http.Register.{write_response}
use simple_cache.Http.Url.{copy_string}
use simple_cache.Http.Headers.{
  header_content_length, header_xttl, header_xlimit, header_xstart, header_xdelete,
}

-- `RBUF_READMOVE` by an `int`
unfoldable pub move_by : ℤ → ReadBuffer → ReadBuffer
move_by (pos n) b = read_move b n
move_by (negsuc n) b = read_move b (2 ^ 16 - (n + 1) % 2 ^ 16)

module _ {v : Env} where
  abbrev pub move_input_by : ℤ → World v → World v
  move_input_by n = on_conn λ c. record c { input = move_by n c.input }

module _ {v : Env} (o : Outside v) where
  -- `rbuf_strntol` of the value, `length` bytes: the step `k` with the number, or the response to
  -- an invalid one, in which `skip` bytes are taken out.
  unfoldable pub with_number :
      ℤ → ℤ → (ℕ → World v → Option (World v)) → World v → Option ((Action × World v) ⊎ World v)
  unfolding write_response
  with_number length skip k w = elim (strntol w.conn.input length) [
    | Parsed.fault ↦ none
    | Parsed.reject ↦
        some (inl (write_response o Template.full_invalid_method (move_input_by skip w)))
    | Parsed.value n ↦ do w1 ← k n w; some (inr w1)
  ]

  -- The content's length, for an entry or without one.
  unfoldable pub set_content_length : ℕ → World v → Option (World v)
  set_content_length n w = elim w.conn.target.entry [
    | none ↦ some (on_target (λ t. record t { position = 0; end_position = n }) w)
    | some p ↦ do
      r ← write_allocate o.opened o.blockfile w.conn.target n w.db
      some (on_target (λ t. r.0) (record w { db = r.1 }))
  ]

  -- The time to live of the entry at `p`.
  unfoldable pub set_ttl : Ptr → ℕ → World v → Option (World v)
  set_ttl p n w =
      if n == 0 then some w else on_db (modify_entry p (λ e. record e { expires = n + v.now })) w

  -- The deletion of a key of a table.
  unfoldable pub delete_key : Ptr → ℕ → World v → Option (World v)
  unfolding copy_string
  delete_key t length w = do
    key ← copy_string w.conn.input length
    r ← entry_get_delete t key length w.db
    elim r.0 [
      | none ↦ some (record w { db = r.1 })
      | some p ↦ do
        s ← entry_delete_found p r.1
        d ← entry_deref p false s.1
        let w1 = record w { db = d }
        some (if s.0 then on_target (λ x. record x { entry = none }) w1 else w1)
    ]

  -- The last case of the `switch`; a negative length is no size of a block of memory.
  unfoldable pub extract_delete : ℤ → World v → Option (World v)
  unfolding delete_key
  extract_delete length w = elim w.conn.target.entry [
    | none ↦ some w
    | some t ↦ elim length [ pos n ↦ delete_key t n w | negsuc n ↦ none ]
  ]

  -- The `switch` over the header: a response, or the state to go on with.
  unfoldable pub extract : ℤ → ℤ → World v → Option ((Action × World v) ⊎ World v)
  unfolding with_number set_content_length set_ttl extract_delete
  extract length skip w =
      let s = w.conn.state in
      let is = request_is w.conn.method in
      if (s == header_content_length) && is (http_put + level_key)
      then with_number length skip set_content_length w
      else if (s == header_xttl) && is (http_put + level_key)
      then elim w.conn.target.entry [
        | none ↦ some (inr w)
        | some p ↦ with_number length skip (set_ttl p) w
      ]
      else if (s == header_xlimit) && is (http_get + level_table)
      then with_number length skip (λ n x. some (on_target (set_limit n) x)) w
      else if (s == header_xstart) && is (http_get + level_table)
      then with_number length skip (λ n x. some (on_target (set_start n) x)) w
      else if (s == header_xdelete) && is (http_purge + level_table)
      then (do w1 ← extract_delete length w; some (inr w1))
      else some (inr w)

  -- `http_read_header_extraction`
  unfoldable pub read_header_extraction : ℕ → ℕ → ℕ → World v → Iterated v
  unfolding extract
  read_header_extraction n i c w = next_n n (
      if c == b' '
      then some (Action.continue_processing, move_input 1 w)
      else if (c == b'\n') || (c == b'\r')
      then (do
        let length = sub_ℕ i (index w.conn.input.read_position)
        let skip = length +ℤ pos (if c == b'\r' then 2 else 1)
        r ← extract length skip w
        some (elim r [
          | inl done ↦ done
          | inr w1 ↦ (
            Action.needs_more_read,
            move_input_by skip (set_handler Handler.cache_handle_headers (set_state 1 w1)),
          )
        ]))
      else some (Action.continue_processing, w))

  -- `http_cache_handle_headers_extract`
  unfoldable pub cache_handle_headers_extract : World v → Handled v
  unfolding read_header_extraction
  cache_handle_headers_extract w = do
    r ← iterate (λ x. x.conn.input) read_header_extraction w
    some (r.0, r.2)
