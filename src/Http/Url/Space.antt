-- ===== src/Http/Url/Space.antt =====
-- A request for a table: the space after its URL.
use simple_cache.Base.{
  ℕ, zero, suc, ◌+◌, ◌-◌, ◌%◌, ◌^◌, ◌≤◌, ◌<◌, ◌≡◌, ◌≢◌, refl, sym, ap, ◌∙◌, arith, true, not, ◌&&◌,
  List, [], ◌∷◌, ◌++◌, Option, some, length, take, drop, length-append, take-append, min, ◌==◌,
  ==_ne, ◌>>=◌, pos, eqb_ℤ,
}
use simple_cache.ReadBuffer.{ReadBuffer, buffer_size, index, read_len, read_move}
use simple_cache.ReadBuffer.Bounds.{IsValid, read_move-IsValid}
use simple_cache.ReadBuffer.Contents.{contents, window, window-index}
use simple_cache.ReadBuffer.Copy.{copyn_release}
use simple_cache.Store.{Ptr}
use simple_cache.Db.{Env, Db}
use simple_cache.Db.Tables.{table_get_read}
use simple_cache.Http.{
  Action, Handler, World, Outside, set_method, set_state, set_handler, set_limit, set_start,
  on_target, move_input,
}
use simple_cache.Http.Methods.{http_get, request_is}
use simple_cache.Http.Iterate.{iterate}
use simple_cache.Http.Iterate.Until.{nth, Avoids, nth-Avoids, length-contents, iterate-until}
use simple_cache.Http.Url.{
  default_listing_limit, copy_string, url_space, url_listing, read_requeststarturl1,
  cache_handle_url,
}

nil_of : (xs : List ℕ) → length xs ≡ 0 → xs ≡ []
nil_of [] h = refl
nil_of (x ∷ xs) h = absurd (omega arith)

pub copy_string_lem :
    (b : ReadBuffer) (n : ℕ)
    → IsValid b
    → read_len b < buffer_size
    → n ≤ read_len b
    → copy_string b n ≡ some (take n (contents b))
unfolding copy_string
copy_string_lem b n v room h = rw (copyn_release b n v room, whole) (rw (same n) refl)
  where
    whole : min n (read_len b) ≡ n
    whole = omega arith

    same : (k : ℕ) → eqb_ℤ (pos k) (pos k) ≡ true
    same k = ground arith

-- What is left after the first unread byte.
pub contents-read_move :
    (b : ReadBuffer) (c : ℕ) (t : List ℕ)
    → IsValid b
    → contents b ≡ c ∷ t
    → contents (read_move b 1) ≡ t
unfolding read_move
contents-read_move b c t v e = by_length (read_len b) refl
  where
    by_length :
        (m : ℕ)
        → read_len b ≡ m
        → window b.buffer ((b.read_position + 1) % 2 ^ 16) (read_len (read_move b 1)) ≡ t
    by_length zero l = absurd (omega (arith, sym (length-contents b) ∙ ap length e, l))
    by_length (suc m) l =
        let moved = read_move-IsValid b 1 v (omega arith) in
        ap (window b.buffer ((b.read_position + 1) % 2 ^ 16)) (omega (arith, moved.1))
        ∙ window-index b.buffer ((b.read_position + 1) % 2 ^ 16) (b.read_position + 1) m
            (omega arith)
        ∙ ap (drop 1) (sym (ap (window b.buffer b.read_position) l) ∙ e)

module _ {v : Env} where
  -- A GET request at the start of its URL.
  abbrev pub at_url : World v → World v
  at_url w = set_state 0 (set_method http_get w)

  -- The state after the space: the table of the name, and the default range of a listing.
  abbrev pub listed : ℕ → Option Ptr → Db v → World v → World v
  listed n t d w = set_state 0 (
      set_handler Handler.cache_handle_headers (
        move_input n (
          on_target (λ x. set_limit default_listing_limit (set_start 0 (record x { entry = t })))
            (record w { db = d }))))

  -- The state that the request for the table `name` leads to.
  abbrev pub after_space : List ℕ → Option Ptr → Db v → World v → World v
  after_space name t d w =
      listed (length name + 2) t d (set_method (http_get + 2) (move_input 1 (set_state 0 w)))

module _ {v : Env} (o : Outside v) where
  url-first :
      (w : World v) (i : ℕ)
      → read_requeststarturl1 o 0 i b'/' w ≡ some (Action.continue_processing, 1, w)
  unfolding read_requeststarturl1
  url-first w i = refl

  url-pass :
      (w : World v) (k i c : ℕ)
      → k ≢ 0
      → c ≢ b'/'
      → c ≢ b' '
      → read_requeststarturl1 o k i c w ≡ some (Action.continue_processing, k + 1, w)
  unfolding read_requeststarturl1
  url-pass w k i c h p q = rw (==_ne k 0 h, other) refl
    where
      other : (not (c == b'/') && not (c == b' ')) ≡ true
      other = ground arith

  url_space-listing :
      (w : World v) (k : ℕ) (name : List ℕ) (t : Option Ptr) (d : Db v)
      → k ≢ 1
      → table_get_read name (k - 1) w.db ≡ some (t, d)
      → url_space o name k (set_method (http_get + 2) w)
        ≡ some (Action.needs_more_read, listed (k + 1) t d (set_method (http_get + 2) w))
  unfolding url_space url_listing request_is
  url_space-listing w k name t d h e = rw (==_ne k 1 h, e) refl

  url-space :
      (w : World v) (k i : ℕ) (name : List ℕ) (r : Action × World v)
      → k ≢ 0
      → copy_string (read_move w.conn.input 1) (k - 1) ≡ some name
      → url_space o name k (set_method (http_get + 2) (move_input 1 (set_state 0 w))) ≡ some r
      → read_requeststarturl1 o k i b' ' (at_url w) ≡ some (r.0, k + 1, r.1)
  unfolding read_requeststarturl1
  url-space w k i name r h c e = rw (==_ne k 0 h, c, e) refl

  -- A GET request for a table, of a valid buffer that is not full and ends with the space after the
  -- URL, of a connection registered for reading, takes out one byte too many: the read position
  -- passes the write position, and 65535 bytes count as unread. The table's name is not empty and
  -- has no '/' and no space, and its lookup has a result.
  pub cache_handle_url-overruns :
      (w : World v) (name : List ℕ) (t : Option Ptr) (d : Db v)
      → IsValid w.conn.input
      → read_len w.conn.input < buffer_size
      → (not w.conn.epollout && w.conn.epollin) ≡ true
      → contents w.conn.input ≡ b'/' ∷ (name ++ b' ' ∷ [])
      → name ≢ []
      → Avoids b'/' name × Avoids b' ' name
      → table_get_read name (length name) w.db ≡ some (t, d)
      → (cache_handle_url o (at_url w) ≡ some (Action.needs_more_read, after_space name t d w))
        × (read_len (after_space name t d w).conn.input ≡ 2 ^ 16 - 1)
  unfolding cache_handle_url read_len read_move
  cache_handle_url-overruns w name t d u room p e n a l = (rw (p, ◌>>=◌, found) refl, overrun)
    where
      size : read_len w.conn.input ≡ length name + 2
      size =
          omega (
            arith,
            sym (length-contents w.conn.input) ∙ ap length e,
            length-append name (b' ' ∷ []),
          )

      name_size : length name ≢ 0
      name_size h = n (nil_of name h)

      pass :
          (k : ℕ)
          → k < suc (length name)
          → read_requeststarturl1 o k
              (index (w.conn.input.read_position + k))
              (nth (b'/' ∷ name) k)
              (at_url w)
            ≡ some (Action.continue_processing, k + 1, at_url w)
      pass zero h = url-first (at_url w) (index (w.conn.input.read_position + 0))
      pass (suc k) h =
          url-pass (at_url w) (suc k) (index (w.conn.input.read_position + suc k)) (nth name k)
            (omega arith) (nth-Avoids b'/' name k a.0 (omega arith))
            (nth-Avoids b' ' name k a.1 (omega arith))

      copied : copy_string (read_move w.conn.input 1) (length name) ≡ some name
      copied =
          let moved = read_move-IsValid w.conn.input 1 u (omega (arith, size)) in
          copy_string_lem (read_move w.conn.input 1) (length name) moved.0 (omega (arith, moved.1))
            (omega (arith, moved.1, size))
          ∙ ap (λ x. some (take (length name) x))
              (contents-read_move w.conn.input b'/' (name ++ b' ' ∷ []) u e)
          ∙ ap some (take-append name (b' ' ∷ []))

      at_space :
          read_requeststarturl1 o
            (suc (length name))
            (index (w.conn.input.read_position + suc (length name)))
            b' '
            (at_url w)
          ≡ some (Action.needs_more_read, length name + 2, after_space name t d w)
      at_space =
          url-space w (suc (length name)) (index (w.conn.input.read_position + suc (length name)))
            name
            (
              Action.needs_more_read,
              listed (suc (length name) + 1) t d
                  (set_method (http_get + 2) (move_input 1 (set_state 0 w))),
            )
            (omega arith) (ap (copy_string (read_move w.conn.input 1)) (omega arith) ∙ copied)
            (url_space-listing (move_input 1 (set_state 0 w)) (suc (length name)) name t d
              (omega (arith, name_size)) (ap (λ k. table_get_read name k w.db) (omega arith) ∙ l))
          ∙ ap
              (λ k. some (
                Action.needs_more_read,
                k,
                listed k t d (set_method (http_get + 2) (move_input 1 (set_state 0 w))),
              ))
              (omega arith)

      overrun : read_len (after_space name t d w).conn.input ≡ 2 ^ 16 - 1
      overrun = omega (arith, size, u)

      found :
          iterate (λ x. x.conn.input) (read_requeststarturl1 o) (at_url w)
          ≡ some (Action.needs_more_read, length name + 2, after_space name t d w)
      found =
          iterate-until (λ x. x.conn.input) (read_requeststarturl1 o) (at_url w) u room
            (b'/' ∷ name) [] b' ' (length name + 2) Action.needs_more_read (after_space name t d w)
            e pass refl at_space
