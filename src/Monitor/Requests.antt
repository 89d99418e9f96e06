-- ===== src/Monitor/Requests.antt =====
-- The requests of a monitoring connection: the handlers of src/core/http_parse_mon.cpp, over the part of
-- `struct scache_connection` that they use. The templates of src/core/http.h, the response that
-- `monitoring_init` makes and whether epoll takes an update are arguments. `none` is a fault or the end
-- of the fuel of `RBUF_ITERATE`.
pub mod Blank
pub mod Methods
pub mod Overrun
use simple_cache.Base.{
  ℕ, ◌+◌, ◌-◌, ◌*◌, ◌/◌, ◌%◌, ◌^◌, Bool, true, false, not, ◌&&◌, ◌||◌, Option, none, some, List, [],
  ◌∷◌, ltb, ◌==◌, if◌then◌else◌, pos, eqb_ℤ, ◌>>=◌, ◌>>◌, assert, length,
}
use simple_cache.ReadBuffer.{ReadBuffer, read_move, strncmp}
use simple_cache.Http.{Action}
use simple_cache.Http.Iterate.{iterate}
use simple_cache.Http.Methods.{http_get, http_head, request_is}
use simple_cache.Http.Method.{longest_method, find_word}
use simple_cache.Http.Newlines.{skip_over_newlines, count_newlines}
use simple_cache.Http.Templates.{codes}
use simple_cache.Http.Url.{copy_string}

-- What the handler of a monitoring connection can be.
pub data MonHandler : Type 0 where
  at_method at_url at_eolwrite_initial : MonHandler
  at_eolwritetoend at_start_to_count : MonHandler

pub data MonTemplate : Type 0 where
  full_long_method full_unknown_method head_only full200_ok full404_path_not_found : MonTemplate

pub record MonRequest : Type 0 where
  pub input : ReadBuffer
  pub output : Option (List ℕ)
  pub handler : MonHandler
  pub state : ℕ
  pub method : ℕ
  pub epollin : Bool
  pub epollout : Bool

abbrev pub move_by : ℕ → MonRequest → MonRequest
move_by n w = record w { input = read_move w.input n }

-- The words that the method is compared with, in this order, with the method of each.
abbrev pub mon_methods : List (List ℕ × ℕ)
mon_methods = (codes "GET", http_get) ∷ (codes "HEAD", http_head) ∷ []

-- The result of an inner function, with the `n` of the next round.
abbrev pub with_next : ℕ → Option (Action × MonRequest) → Option (Action × ℕ × MonRequest)
with_next n r = do x ← r; some (x.0, n + 1, x.1)

module _ (template : MonTemplate → List ℕ) (monitoring_rsp : List ℕ) (epoll : Bool) where
  -- `http_write_response_after_eol` and `http_headers_response_after_eol`
  abbrev pub after_eol : ℕ → MonTemplate → MonRequest → Action × MonRequest
  after_eol state t w = (
    Action.needs_more_read,
    record w { handler = MonHandler.at_eolwritetoend; output = some (template t); state = state },
  )

  -- `http_mon_read_eol_inital`, with `connection->state` as `temporary`
  unfoldable pub mon_read_eol_inital : ℕ → ℕ → ℕ → MonRequest → Option (Action × ℕ × MonRequest)
  mon_read_eol_inital n i c w =
      let target = w.state % 2 ^ 16 in
      let current = count_newlines (w.state / 2 ^ 16) c in
      if target == current
      then (let w1 = record w {
        state = 0;
        output = some monitoring_rsp;
        handler = MonHandler.at_start_to_count;
        epollout = true;
        epollin = false;
      } in
          some (
            if epoll
            then (Action.registered_write, n + 1, move_by n w1)
            else (Action.close_connection, n + 1, w1)))
      else some (Action.continue_processing, n + 1, record w { state = target + current * 2 ^ 16 })

  -- What follows `RBUF_ITERATE` there.
  abbrev pub discard_rest : Action × ℕ × MonRequest → Action × MonRequest
  discard_rest (Action.needs_more_read, n, w) = (Action.needs_more_read, move_by n w)
  discard_rest (a, n, w) = (a, w)

  -- `http_handle_mon_eolwrite_initial`
  unfoldable pub mon_eolwrite_initial : MonRequest → Option (Action × MonRequest)
  mon_eolwrite_initial w = do
    r ← iterate (λ x. x.input) mon_read_eol_inital w
    some (discard_rest r)

  -- Its `if` chain's bodies: the method is set, or there is none.
  abbrev pub set_method_or : Option ℕ → ℕ → MonRequest → Action × MonRequest
  set_method_or (some m) n w = (Action.needs_more_read, move_by (n + 1) (record w { method = m }))
  set_method_or none n w = after_eol 0 MonTemplate.full_unknown_method (move_by (n + 1) w)

  -- `http_read_requeststartmethod_mon` at the space after the method
  unfoldable pub mon_end_of_method : ℕ → MonRequest → Option (Action × MonRequest)
  unfolding find_word
  mon_end_of_method n w = do
    let w1 = record w { handler = MonHandler.at_url; state = 0 }
    m ← find_word w1.input n mon_methods
    some (set_method_or m n w1)

  -- `http_read_requeststartmethod_mon`
  unfoldable pub read_requeststartmethod_mon :
      ℕ → ℕ → ℕ → MonRequest → Option (Action × ℕ × MonRequest)
  read_requeststartmethod_mon n i c w = with_next n (
      if ltb longest_method n
      then some (after_eol 0 MonTemplate.full_long_method (move_by (n + 1) w))
      else if c == b' '
      then mon_end_of_method n w
      else some (Action.continue_processing, w))

  -- `http_mon_handle_method`
  unfoldable pub mon_handle_method : MonRequest → Option (Action × MonRequest)
  mon_handle_method w = do
    assert (not w.epollout && w.epollin)
    b ← skip_over_newlines w.input
    r ← iterate (λ x. x.input) read_requeststartmethod_mon (record w { input = b; method = 0 })
    some (r.0, r.2)

  -- What the URL with the name `key` asks for, at the space behind it, once it is taken out.
  unfoldable pub answer_url : List ℕ → ℕ → MonRequest → Option (Action × MonRequest)
  answer_url key n w =
      if n == 1
      then some (
          after_eol 2
            (if request_is w.method http_head
              then MonTemplate.head_only
              else MonTemplate.full200_ok)
            w)
      else if (n == 5) && eqb_ℤ (strncmp key (codes "conn") 5) (pos 0)
      then mon_eolwrite_initial (record w { state = 2; handler = MonHandler.at_eolwrite_initial })
      else some (after_eol 0 MonTemplate.full404_path_not_found w)

  -- `http_mon_read_requeststarturl`
  unfoldable pub mon_read_requeststarturl :
      ℕ → ℕ → ℕ → MonRequest → Option (Action × ℕ × MonRequest)
  mon_read_requeststarturl n i c w = with_next n (
      assert (not (n == 0) || (c == b'/'))
      >> (if (n == 0) || not (c == b' ') then some (Action.continue_processing, w) else (do
        let w1 = move_by 1 w
        key ← copy_string w1.input (n - 1)
        answer_url key n (move_by (n + 1) w1))))

  -- `http_mon_handle_url`
  unfoldable pub mon_handle_url : MonRequest → Option (Action × MonRequest)
  mon_handle_url w = do
    assert (not w.epollout && w.epollin)
    r ← iterate (λ x. x.input) mon_read_requeststarturl w
    some (r.0, r.2)
