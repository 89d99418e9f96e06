-- ===== src/Http/Method/Refine.antt =====
-- The stage of the method against its meaning on the list of unread bytes.
use simple_cache.Base.{
  ℕ, zero, suc, ◌+◌, ◌≤◌, ◌<◌, ◌≡◌, ◌≢◌, refl, sym, ap, subst, ◌∙◌, arith, true, false, not, ◌&&◌,
  List, ◌∷◌, ◌++◌, Option, none, some, length, ltb, ◌==◌, ==_ne, pos, eqb_ℤ, ◌>>=◌, length-append,
}
use simple_cache.ReadBuffer.{ReadBuffer, buffer_size, index, read_len}
use simple_cache.ReadBuffer.Bounds.{IsValid, contiguous, read_to_end_lem}
use simple_cache.ReadBuffer.Contents.{contents}
use simple_cache.Db.{Env}
use simple_cache.Http.{Action, Handler, World, set_handler, set_state, set_method, move_input}
use simple_cache.Http.Templates.{Template}
use simple_cache.Http.Register.{write_response_after_eol}
use simple_cache.Http.Newlines.{skip_loop, skip_over_newlines}
use simple_cache.Http.Iterate.{load_byte, iterate}
use simple_cache.Http.Iterate.Scan.{stops}
use simple_cache.Http.Iterate.Until.{
  nth, Avoids, nth-Avoids, nth-contents, length-contents, iterate-until,
}
use simple_cache.Http.Method.{
  methods, end_of_method, read_requeststartmethod, cache_handle_method, longest_method, set_found,
}
use simple_cache.Http.Method.Words.{AllNoNul, lookup, find_word_lem}

-- The first byte that is not read is neither CR nor LF.
abbrev pub Starts : List ℕ → Type 0
Starts xs = (nth xs 0 ≢ b'\r') × (nth xs 0 ≢ b'\n')

-- Where the byte at the pointer is no newline the loop returns at once.
skip_loop_none :
    (b : ReadBuffer) (n c : ℕ)
    → 0 < n
    → b.buffer (index b.read_position) ≡ c
    → c ≢ b'\r'
    → c ≢ b'\n'
    → skip_loop n (index b.read_position) b ≡ some (true, index b.read_position, b)
unfolding skip_loop
skip_loop_none b zero c h e p q = absurd (omega arith)
skip_loop_none b (suc n) c h e p q = rw (load, ◌>>=◌) (rw other refl)
  where
    load : load_byte b (index b.read_position) ≡ some (b.buffer (index b.read_position))
    load = ground arith

    other :
        (not (b.buffer (index b.read_position) == b'\r')
          && not (b.buffer (index b.read_position) == b'\n'))
        ≡ true
    other = ground arith

pub skip_none :
    (b : ReadBuffer)
    → IsValid b
    → read_len b < buffer_size
    → 0 < read_len b
    → Starts (contents b)
    → skip_over_newlines b ≡ some b
unfolding skip_over_newlines
skip_none b v room h s =
    rw (read_to_end_lem b v room, some_bytes)
      (rw (skip_loop_none b (contiguous b) (nth (contents b) 0) more (sym byte) s.0 s.1) refl)
  where
    some_bytes : eqb_ℤ (pos (contiguous b)) (pos 0) ≡ false
    some_bytes = ground arith

    more : 0 < contiguous b
    more = ground arith

    byte : nth (contents b) 0 ≡ b.buffer (index b.read_position)
    byte = nth-contents b 0 h ∙ ap (λ t. b.buffer (index t)) (omega arith)

methods-NoNul : AllNoNul methods
methods-NoNul = ground arith

module _ {v : Env} where
  -- The URL is next, with the method found; a word that is no method is answered.
  abbrev pub next_stage : Option ℕ → ℕ → World v → Action × World v
  next_stage (some k) n w = (
    Action.needs_more_read,
    move_input n (set_method k (set_state 0 (set_handler Handler.cache_handle_url w))),
  )
  next_stage none n w =
      write_response_after_eol Template.full_unknown_method
        (move_input n (set_method 0 (set_state 0 (set_handler Handler.cache_handle_url w))))

  -- What the stage is to do with a request that starts with the word `m` and a space.
  abbrev pub stage_result : List ℕ → World v → Action × World v
  stage_result m w = next_stage (lookup m methods) (length m + 1) w

  end_of_method_lem :
      (w : World v) (m t : List ℕ)
      → IsValid w.conn.input
      → read_len w.conn.input < buffer_size
      → contents w.conn.input ≡ m ++ t
      → end_of_method (length m) (set_method 0 w) ≡ some (stage_result m w)
  unfolding end_of_method
  end_of_method_lem w m t u room e =
      rw (find_word_lem w.conn.input m t u room e methods methods-NoNul) (by_row (lookup m methods))
    where
      by_row :
          (o : Option ℕ)
          → some (
              set_found o
                (length m)
                (set_state 0 (set_handler Handler.cache_handle_url (set_method 0 w))))
            ≡ some (next_stage o (length m + 1) w)
      by_row (some k) = refl
      by_row none = refl

  next_stage-stops : (o : Option ℕ) (n : ℕ) (w : World v) → stops (next_stage o n w).0 ≡ true
  unfolding write_response_after_eol
  next_stage-stops (some k) n w = refl
  next_stage-stops none n w = refl

  pass :
      (w : World v) (k i c : ℕ)
      → k ≤ longest_method
      → c ≢ b' '
      → read_requeststartmethod k i c w ≡ some (Action.continue_processing, k + 1, w)
  unfolding read_requeststartmethod
  pass w k i c h n = rw (short, ==_ne c b' ' n) refl
    where
      short : ltb longest_method k ≡ false
      short = ground arith

  at_space :
      (w : World v) (k i : ℕ) (r : Action × World v)
      → k ≤ longest_method
      → end_of_method k w ≡ some r
      → read_requeststartmethod k i b' ' w ≡ some (r.0, k + 1, r.1)
  unfolding read_requeststartmethod
  at_space w k i r h e = rw short (rw e refl)
    where
      short : ltb longest_method k ≡ false
      short = ground arith

  -- `http_cache_handle_method` on a valid buffer that is not full, of a connection registered for
  -- reading, whose unread bytes are a word without spaces, of six bytes at most and not starting
  -- with a newline, a space, and any others: it looks the word up in the table of methods, takes out
  -- the word and the space, and goes on to the URL, or to an error's response.
  pub cache_handle_method_lem :
      (w : World v) (m t : List ℕ)
      → IsValid w.conn.input
      → read_len w.conn.input < buffer_size
      → (not w.conn.epollout && w.conn.epollin) ≡ true
      → contents w.conn.input ≡ m ++ b' ' ∷ t
      → Avoids b' ' m
      → length m ≤ longest_method
      → Starts (m ++ b' ' ∷ t)
      → cache_handle_method w ≡ some (stage_result m w)
  unfolding cache_handle_method
  cache_handle_method_lem w m t u room p e a l s =
      rw (p, skip_none w.conn.input u room some_bytes (subst Starts (sym e) s), ◌>>=◌)
        (rw found refl)
    where
      some_bytes : 0 < read_len w.conn.input
      some_bytes =
          omega
            (arith, sym (length-contents w.conn.input) ∙ ap length e ∙ length-append m (b' ' ∷ t))

      found :
          iterate (λ x. x.conn.input) read_requeststartmethod (set_method 0 w)
          ≡ some ((stage_result m w).0, length m + 1, (stage_result m w).1)
      found =
          iterate-until (λ x. x.conn.input) read_requeststartmethod (set_method 0 w) u room m t b' '
            (length m + 1) (stage_result m w).0 (stage_result m w).1 e
            (λ k h.
              pass (set_method 0 w) k (index (w.conn.input.read_position + k)) (nth m k)
                (omega arith) (nth-Avoids b' ' m k a h))
            (next_stage-stops (lookup m methods) (length m + 1) w)
            (at_space (set_method 0 w) (length m) (index (w.conn.input.read_position + length m))
              (stage_result m w) l (end_of_method_lem w m (b' ' ∷ t) u room e))
