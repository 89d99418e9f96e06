-- ===== src/Http/Url.antt =====
-- The URL, the key and the version of a request: stages of src/core/http_parse_cache.cpp.
pub mod Space
use simple_cache.Base.{
  ℕ, ◌+◌, ◌-◌, ◌%◌, ◌^◌, Bool, true, not, ◌&&◌, ◌||◌, Option, none, some, List, ◌==◌, if◌then◌else◌,
  pos, negsuc, eqb_ℤ, ◌>>=◌, ◌>>◌, assert, false,
}
use simple_cache.ReadBuffer.{ReadBuffer, copyn, strncmp}
use simple_cache.Store.{Ptr}
use simple_cache.Db.{Env, Db}
use simple_cache.Db.Tables.{table_get_read, table_get_write, table_close}
use simple_cache.Db.Lookup.{entry_get_read, entry_get_write, entry_get_delete}
use simple_cache.Db.Targets.{target_setup}
use simple_cache.Http.{
  Action, Handler, World, Outside, Handled, Iterated, on_conn, set_handler, set_state, set_method,
  set_start, set_limit, on_target, move_input, on_db, next_n,
}
use simple_cache.Http.Methods.{
  http_admin, http_get, http_purge, http_put, http_delete, http_head, level_key, level_table,
  request_is, add_level, drop_level,
}
use simple_cache.Http.Templates.{Template, codes}
use simple_cache.Http.Iterate.{iterate}
use simple_cache.Http.Register.{
  set_output, stats_after_eol, write_response_after_eol, headers_response_after_eol,
}

-- The string of `n` bytes that `rbuf_copyn` gives in a build without assertions; it is a fault if
-- fewer were copied.
unfoldable pub copy_string : ReadBuffer → ℕ → Option (List ℕ)
copy_string b n = do r ← copyn false b n; assert (eqb_ℤ r.1 (pos n)) >> some r.0

-- `DB_LRU_EVERY`, at its default, and `DEFAULT_LISTING_LIMIT`
abbrev pub lru_every : ℕ
lru_every = 50

abbrev pub default_listing_limit : ℕ
default_listing_limit = 10000

-- What a request asks for, where several methods go the same way.
abbrev pub is_get_or_head : ℕ → Bool
is_get_or_head m = request_is m http_get || request_is m http_head

abbrev pub reads_table : ℕ → Bool
reads_table m = request_is m http_get || request_is m http_delete || request_is m http_head

abbrev pub takes_table : ℕ → Bool
takes_table m = request_is m http_get || request_is m http_delete || request_is m http_purge

module _ {v : Env} (o : Outside v) where
  -- The lookup in `http_key_lookup`: its entry, if the method has one, and the state.
  unfoldable pub find_entry : List ℕ → ℕ → World v → Option (Option Ptr × World v)
  find_entry key n w = do
    t ← w.conn.target.entry
    if is_get_or_head w.conn.method
        then (do r ← entry_get_read t key n w.db; some (r.0, (record w { db = r.1 })))
        else if request_is w.conn.method http_put
        then (do
          r ← entry_get_write lru_every o.lru_gc t key n o.fresh_entry w.db
          let w1 = record w { db = r.1 }
          elim r.0 [
            | none ↦ some (none, w1)
            | some p ↦ some (some p, on_conn (λ c. record c { is_writing = true }) w1)
          ])
        else (do
          r ← entry_get_delete t key n w.db
          some (r.0, set_output Template.full200_deleted (record w { db = r.1 })))

  -- Its end: the target becomes the entry, or the table is closed.
  unfoldable pub set_entry : Option Ptr → World v → Option (World v)
  set_entry (some p) w = do
    r ←
        target_setup o.opened o.blockfile (record w.conn.target { entry = some p })
          (request_is w.conn.method http_put) w.db
    some (on_target (λ t. r.0) (record w { db = r.1 }))
  set_entry none w = do
    t ← w.conn.target.entry
    w1 ← on_db (table_close t) w
    some (on_target (λ x. record x { entry = none; fd = negsuc 0 }) w1)

  abbrev pub has_key_method : ℕ → Bool
  has_key_method m = is_get_or_head m || request_is m http_put || request_is m http_delete

  -- `http_key_lookup`. In its last branch it returns a `state_action` other than 0 as a `bool`, so
  -- its result is always true.
  unfoldable pub key_lookup : ℕ → World v → Option (World v)
  unfolding find_entry set_entry copy_string write_response_after_eol
  key_lookup n w = do
    key ← copy_string w.conn.input n
    if has_key_method w.conn.method
        then (do
          r ← find_entry key n w
          let m = drop_level level_table (add_level level_key (r.1.conn.method))
          set_entry r.0 (set_handler Handler.cache_handle_httpversion (set_method m r.1)))
        else some (write_response_after_eol Template.full_invalid_method w).1

  -- `http_read_requeststarturl1` at the '/' after the table's name
  unfoldable pub url_table : List ℕ → ℕ → World v → Handled v
  unfolding headers_response_after_eol
  url_table name n w = do
    r ←
        if reads_table w.conn.method
        then table_get_read name (n - 1) w.db
        else (do s ← table_get_write name (n - 1) o.fresh_table w.db; some (some s.0, s.1))
    let w1 = on_target (λ t. record t { entry = r.0 }) (record w { db = r.1 })
    some (elim r.0 [
      | none ↦ headers_response_after_eol Template.full404 w1
      | some t ↦
          (Action.needs_more_read, move_input n (set_state ((w1.conn.state + 1) % 2 ^ 32) w1))
    ])

  -- The first part of what it does at the space after the URL: the statistics, or a table.
  unfoldable pub url_listing : List ℕ → ℕ → World v → Handled v
  unfolding stats_after_eol
  url_listing name n w = if n == 1 then some (stats_after_eol (move_input (n + 1) w)) else (do
    r ← table_get_read name (n - 1) w.db
    let w1 =
        on_target (λ t. set_limit default_listing_limit (set_start 0 (record t { entry = r.0 })))
          (record w { db = r.1 })
    some (
      Action.needs_more_read,
      set_state 0 (set_handler Handler.cache_handle_headers (move_input (n + 1) w1)),
    ))

  -- The rest of it
  unfoldable pub url_space : List ℕ → ℕ → World v → Handled v
  unfolding url_listing stats_after_eol write_response_after_eol
  url_space name n w =
      if takes_table w.conn.method
      then url_listing name n w
      else if request_is w.conn.method http_admin
          && (n == 3)
          && eqb_ℤ (strncmp name (codes "gc") n) (pos 0)
      then (do w1 ← on_db o.lru_gc (move_input (n + 1) w); some (stats_after_eol w1))
      else some (write_response_after_eol Template.full_invalid_method (move_input (n + 1) w))

  -- `http_read_requeststarturl1`
  unfoldable pub read_requeststarturl1 : ℕ → ℕ → ℕ → World v → Iterated v
  read_requeststarturl1 n i c w = next_n n (
      if n == 0
      then (assert (c == b'/') >> some (Action.continue_processing, w))
      else if not (c == b'/') && not (c == b' ')
      then some (Action.continue_processing, w)
      else (do
        let w1 = move_input 1 w
        name ← copy_string w1.conn.input (n - 1)
        let w2 = set_method (add_level level_table (w1.conn.method)) w1
        if c == b'/' then url_table name n w2 else url_space name n w2))

  -- `http_read_requeststarturl2`
  unfoldable pub read_requeststarturl2 : ℕ → ℕ → ℕ → World v → Iterated v
  unfolding key_lookup
  read_requeststarturl2 n i c w = next_n n (
      if c == b' '
      then (do
        w1 ← key_lookup n w
        some (Action.needs_more_read, set_state 0 (move_input (n + 1) w1)))
      else some (Action.continue_processing, w))

  -- `http_read_version`. Where it finds the end of the line it sets `n` to -1, before the `n++`.
  unfoldable pub read_version : ℕ → ℕ → ℕ → World v → Iterated v
  read_version n i c w =
      if c == b'\n'
      then some (
        Action.needs_more_read,
        0,
        move_input (n + 1) (set_handler Handler.cache_handle_headers (set_state 1 w)),
      )
      else some (Action.continue_processing, n + 1, w)

  -- `http_cache_handle_url`
  unfoldable pub cache_handle_url : World v → Handled v
  unfolding read_requeststarturl1 read_requeststarturl2
  cache_handle_url w = do
    assert (not w.conn.epollout && w.conn.epollin)
    r ←
        iterate (λ x. x.conn.input)
          (if w.conn.state == 0 then read_requeststarturl1 else read_requeststarturl2) w
    some (r.0, r.2)

  -- `http_cache_handle_httpversion`
  unfoldable pub cache_handle_httpversion : World v → Handled v
  unfolding read_version
  cache_handle_httpversion w = do
    r ← iterate (λ x. x.conn.input) read_version w
    some (r.0, (if r.1 == 0 then r.2 else move_input (r.1) (r.2)))
