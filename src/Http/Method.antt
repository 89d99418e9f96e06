-- ===== src/Http/Method.antt =====
-- The request method: the first stage of src/core/http_parse_cache.cpp.
pub mod Words
pub mod Refine
use simple_cache.Base.{
  ℕ, ◌+◌, Bool, true, false, not, ◌&&◌, Option, none, some, List, [], ◌∷◌, ltb, ◌==◌, if◌then◌else◌,
  pos, eqb_ℤ, length, ◌>>=◌, ◌>>◌, assert,
}
use simple_cache.ReadBuffer.{ReadBuffer, cmpn}
use simple_cache.Db.{Env}
use simple_cache.Http.{
  Action, Handler, Conn, World, Outside, Handled, Iterated, on_conn, set_handler, set_state,
  set_method, move_input, next_n,
}
use simple_cache.Http.Methods.{http_admin, http_get, http_purge, http_put, http_delete, http_head}
use simple_cache.Http.Templates.{Template, codes}
use simple_cache.Http.Iterate.{iterate}
use simple_cache.Http.Register.{write_response_after_eol}
use simple_cache.Http.Newlines.{skip_over_newlines}

-- `LONGEST_REQMETHOD`
abbrev pub longest_method : ℕ
longest_method = 6

-- The words that the method is compared with, in this order, with the method of each.
abbrev pub methods : List (List ℕ × ℕ)
methods =
    (codes "GET", http_get)
    ∷ (codes "PUT", http_put)
    ∷ (codes "HEAD", http_head)
    ∷ (codes "DELETE", http_delete)
    ∷ (codes "BULK", http_purge)
    ∷ (codes "PURGE", http_purge)
    ∷ (codes "ADMIN", http_admin)
    ∷ []

-- `n == k && rbuf_cmpn(&connection->input, word, k) == 0`, with the word's length `k`
unfoldable pub is_word : ReadBuffer → ℕ → List ℕ → Option Bool
is_word b n word =
    if n == length word
    then (do r ← cmpn b word (length word); some (eqb_ℤ r (pos 0)))
    else some false

-- A chain of such tests: the number that goes with the first word that is there.
unfoldable pub find_word : ReadBuffer → ℕ → List (List ℕ × ℕ) → Option (Option ℕ)
unfolding is_word
find_word b n [] = some none
find_word b n ((word, m) ∷ rest) = do
  same ← is_word b n word
  elim same [ true ↦ some (some m) | false ↦ find_word b n rest ]

module _ {v : Env} where
  -- Its `if` chain's bodies: the method is set, or there is none.
  abbrev pub set_found : Option ℕ → ℕ → World v → Action × World v
  set_found (some m) n w = (Action.needs_more_read, move_input (n + 1) (set_method m w))
  set_found none n w = write_response_after_eol Template.full_unknown_method (move_input (n + 1) w)

  -- `http_read_requeststartmethod` at the space after the method
  unfoldable pub end_of_method : ℕ → World v → Handled v
  unfolding find_word write_response_after_eol
  end_of_method n w = do
    let w1 = set_state 0 (set_handler Handler.cache_handle_url w)
    m ← find_word w1.conn.input n methods
    some (set_found m n w1)

  -- `http_read_requeststartmethod`
  unfoldable pub read_requeststartmethod : ℕ → ℕ → ℕ → World v → Iterated v
  unfolding end_of_method write_response_after_eol
  read_requeststartmethod n i c w = next_n n (
      if ltb longest_method n
      then some (write_response_after_eol Template.full_long_method (move_input (n + 1) w))
      else if c == b' '
      then end_of_method n w
      else some (Action.continue_processing, w))

  -- `http_cache_handle_method`
  unfoldable pub cache_handle_method : World v → Handled v
  unfolding read_requeststartmethod
  cache_handle_method w = do
    assert (not w.conn.epollout && w.conn.epollin)
    b ← skip_over_newlines w.conn.input
    r ←
        iterate (λ x. x.conn.input) read_requeststartmethod
          (set_method 0 (on_conn (λ c. record c { input = b }) w))
    some (r.0, r.2)
