-- ===== src/Http/Newlines/Eol.antt =====
-- The wait for the end of the line before a response is sent.
use simple_cache.Base.{
  ℕ, ◌+◌, ◌<◌, ◌≡◌, ◌≢◌, refl, ap, arith, Bool, true, false, List, [], ◌∷◌, ◌++◌, some, length,
}
use simple_cache.ReadBuffer.{buffer_size, index, read_len}
use simple_cache.ReadBuffer.Bounds.{IsValid}
use simple_cache.ReadBuffer.Contents.{contents}
use simple_cache.Db.{Env}
use simple_cache.Http.{Action, Handler, World, Outside, on_conn, set_handler, set_state, move_input}
use simple_cache.Http.Iterate.{iterate}
use simple_cache.Http.Iterate.Scan.{stops}
use simple_cache.Http.Iterate.Until.{
  nth, Avoids, nth-Avoids, length-contents, iterate-until, iterate-all,
}
use simple_cache.Http.Register.{register_write, stats_after_eol}
use simple_cache.Http.Newlines.{
  count_newlines, read_eoltoend, discard_seen, handle_eolwritetoend, cache_handle_eolstats,
}

count-other : (c : ℕ) → c ≢ b'\n' → count_newlines 0 c ≡ 0
count-other c h = ground arith

module _ {v : Env} where
  -- Once the line has ended the response is to be written, or the connection closed if the event
  -- set could not be changed.
  abbrev pub answered : Bool → ℕ → World v → Action × World v
  answered epoll n w =
      let w1 =
        on_conn
          (λ c. record c {
            handler = Handler.respond_writeonly;
            state = 0;
            epollout = true;
            epollin = false;
          })
          w in
      elim epoll [
        | true ↦ (Action.registered_write, move_input n w1)
        | false ↦ (Action.close_connection, w1)
      ]

  -- What the request for the statistics does at the first byte after its URL.
  abbrev pub stats_answered : World v → Action × World v
  stats_answered w = (
    Action.registered_write,
    set_handler Handler.respond_stats
        (answered true 0 (set_handler Handler.cache_handle_eolstats w)).1,
  )

module _ {v : Env} (o : Outside v) where
  eol-pass :
      (w : World v) (k i c : ℕ)
      → c ≢ b'\n'
      → read_eoltoend o k i c (set_state 1 w)
        ≡ some (Action.continue_processing, k + 1, set_state 1 w)
  unfolding read_eoltoend
  eol-pass w k i c h = rw (count-other c h) refl

  eol-stop :
      (p : Bool) (w : World v) (k i : ℕ)
      → o.epoll ≡ p
      → read_eoltoend o k i b'\n' (set_state 1 w)
        ≡ some ((answered p k w).0, k + 1, (answered p k w).1)
  unfolding read_eoltoend register_write
  eol-stop true w k i e = rw e refl
  eol-stop false w k i e = rw e refl

  answered-stops :
      (p : Bool) (k n : ℕ) (w : World v)
      → (stops (answered p k w).0 ≡ true)
        × (discard_seen ((answered p k w).0, n, (answered p k w).1) ≡ answered p k w)
  answered-stops true k n w = (refl, refl)
  answered-stops false k n w = (refl, refl)

  -- `http_handle_eolwritetoend` in the state that waits for one newline, on a valid buffer that is
  -- not full. Without a newline in it all unread bytes are taken out, and more are asked for. With
  -- one, what stands before the first is taken out, and the connection is registered to write the
  -- response, or closed if that fails.
  pub handle_eolwritetoend_lem :
      (w : World v)
      → IsValid w.conn.input
      → read_len w.conn.input < buffer_size
      → (Avoids b'\n' (contents w.conn.input)
          → handle_eolwritetoend o (set_state 1 w)
            ≡ some (Action.needs_more_read, move_input (read_len w.conn.input) (set_state 1 w)))
        × ((m t : List ℕ)
            → Avoids b'\n' m
            → contents w.conn.input ≡ m ++ b'\n' ∷ t
            → handle_eolwritetoend o (set_state 1 w) ≡ some (answered o.epoll (length m) w))
  unfolding handle_eolwritetoend
  handle_eolwritetoend_lem w u room = (
    λ a. rw (all a) refl,
    λ m t a e. rw (until m t a e) (ap some (answered-stops o.epoll (length m) (length m + 1) w).1),
  )
    where
      all :
          Avoids b'\n' (contents w.conn.input)
          → iterate (λ x. x.conn.input) (read_eoltoend o) (set_state 1 w)
            ≡ some (Action.needs_more_read, read_len w.conn.input, set_state 1 w)
      all a =
          iterate-all (λ x. x.conn.input) (read_eoltoend o) (set_state 1 w) u room
            λ k h.
              eol-pass w k (index (w.conn.input.read_position + k)) (nth (contents w.conn.input) k)
                (nth-Avoids b'\n' (contents w.conn.input) k a
                  (omega (arith, length-contents w.conn.input)))

      until :
          (m t : List ℕ)
          → Avoids b'\n' m
          → contents w.conn.input ≡ m ++ b'\n' ∷ t
          → iterate (λ x. x.conn.input) (read_eoltoend o) (set_state 1 w)
            ≡ some
                ((answered o.epoll (length m) w).0, length m + 1, (answered o.epoll (length m) w).1)
      until m t a e =
          iterate-until (λ x. x.conn.input) (read_eoltoend o) (set_state 1 w) u room m t b'\n'
            (length m + 1) (answered o.epoll (length m) w).0 (answered o.epoll (length m) w).1 e
            (λ k h.
              eol-pass w k (index (w.conn.input.read_position + k)) (nth m k)
                (nth-Avoids b'\n' m k a h))
            (answered-stops o.epoll (length m) 0 w).0
            (eol-stop o.epoll w (length m) (index (w.conn.input.read_position + length m)) refl)

  -- The request for the statistics is answered at the first unread byte after its URL, unless that
  -- is a newline: the rest of the request, its headers included, stays in the buffer, which is valid
  -- and not full, as the next request's. The change of the event set succeeds.
  pub stats_early :
      (w : World v) (c : ℕ) (t : List ℕ)
      → IsValid w.conn.input
      → read_len w.conn.input < buffer_size
      → o.epoll ≡ true
      → c ≢ b'\n'
      → contents w.conn.input ≡ c ∷ t
      → cache_handle_eolstats o (stats_after_eol w).1 ≡ some (stats_answered w)
  unfolding cache_handle_eolstats stats_after_eol read_eoltoend register_write
  stats_early w c t u room p h e = rw found refl
    where
      at_once :
          (i : ℕ)
          → read_eoltoend o 0 i c (set_handler Handler.cache_handle_eolstats (set_state 0 w))
            ≡ some (
              Action.registered_write,
              1,
              (answered true 0 (set_handler Handler.cache_handle_eolstats w)).1,
            )
      at_once i = rw (count-other c h) (rw p refl)

      found :
          iterate
            (λ x. x.conn.input)
            (read_eoltoend o)
            (set_handler Handler.cache_handle_eolstats (set_state 0 w))
          ≡ some (
            Action.registered_write,
            1,
            (answered true 0 (set_handler Handler.cache_handle_eolstats w)).1,
          )
      found =
          iterate-until (λ x. x.conn.input) (read_eoltoend o)
            (set_handler Handler.cache_handle_eolstats (set_state 0 w)) u room [] t c 1
            Action.registered_write
            (answered true 0 (set_handler Handler.cache_handle_eolstats w)).1 e
            (λ k l. absurd (omega arith)) refl (at_once (index (w.conn.input.read_position + 0)))
