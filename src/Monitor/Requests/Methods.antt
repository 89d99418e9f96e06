-- ===== src/Monitor/Requests/Methods.antt =====
-- The method of a monitoring request against its meaning on the list of unread bytes.
use simple_cache.Base.{
  ℕ, ◌+◌, ◌≤◌, ◌<◌, ◌≡◌, ◌≢◌, refl, sym, ap, subst, ◌∙◌, arith, Bool, true, false, not, ◌&&◌, List,
  ◌∷◌, ◌++◌, Option, none, some, length, ltb, ==_ne, ◌>>=◌, length-append,
}
use simple_cache.ReadBuffer.{buffer_size, index, read_len}
use simple_cache.ReadBuffer.Bounds.{IsValid}
use simple_cache.ReadBuffer.Contents.{contents}
use simple_cache.Http.{Action}
use simple_cache.Http.Iterate.{iterate}
use simple_cache.Http.Iterate.Scan.{stops}
use simple_cache.Http.Iterate.Until.{nth, Avoids, nth-Avoids, length-contents, iterate-until}
use simple_cache.Http.Method.{longest_method}
use simple_cache.Http.Method.Refine.{Starts, skip_none}
use simple_cache.Http.Method.Words.{AllNoNul, lookup, find_word_lem}
use simple_cache.Monitor.Requests.{
  MonTemplate, MonHandler, MonRequest, move_by, after_eol, mon_methods, set_method_or,
  mon_end_of_method, read_requeststartmethod_mon, mon_handle_method,
}

mon_methods-NoNul : AllNoNul mon_methods
mon_methods-NoNul = ground arith

module _ (template : MonTemplate → List ℕ) (monitoring_rsp : List ℕ) (epoll : Bool) where
  -- The URL is next, with the method found; a word that is no method is answered.
  abbrev pub mon_next_stage : Option ℕ → ℕ → MonRequest → Action × MonRequest
  mon_next_stage (some k) n w = (
    Action.needs_more_read,
    move_by n (record w { method = k; state = 0; handler = MonHandler.at_url }),
  )
  mon_next_stage none n w =
      after_eol template monitoring_rsp epoll 0 MonTemplate.full_unknown_method
        (move_by n (record w { method = 0; state = 0; handler = MonHandler.at_url }))

  -- What the stage is to do with a request that starts with the word `m` and a space.
  abbrev pub mon_stage_result : List ℕ → MonRequest → Action × MonRequest
  mon_stage_result m w = mon_next_stage (lookup m mon_methods) (length m + 1) w

  end_of_method_lem :
      (w : MonRequest) (m t : List ℕ)
      → IsValid w.input
      → read_len w.input < buffer_size
      → contents w.input ≡ m ++ t
      → mon_end_of_method template monitoring_rsp epoll (length m) (record w { method = 0 })
        ≡ some (mon_stage_result m w)
  unfolding mon_end_of_method
  end_of_method_lem w m t u room e =
      rw (find_word_lem w.input m t u room e mon_methods mon_methods-NoNul)
        (by_row (lookup m mon_methods))
    where
      by_row :
          (o : Option ℕ)
          → some (
              set_method_or template monitoring_rsp epoll o
                (length m)
                (record w { method = 0; handler = MonHandler.at_url; state = 0 }))
            ≡ some (mon_next_stage o (length m + 1) w)
      by_row (some k) = refl
      by_row none = refl

  mon_next_stage-stops :
      (o : Option ℕ) (n : ℕ) (w : MonRequest) → stops (mon_next_stage o n w).0 ≡ true
  mon_next_stage-stops (some k) n w = refl
  mon_next_stage-stops none n w = refl

  pass :
      (w : MonRequest) (k i c : ℕ)
      → k ≤ longest_method
      → c ≢ b' '
      → read_requeststartmethod_mon template monitoring_rsp epoll k i c w
        ≡ some (Action.continue_processing, k + 1, w)
  unfolding read_requeststartmethod_mon
  pass w k i c h n = rw (short, ==_ne c b' ' n) refl
    where
      short : ltb longest_method k ≡ false
      short = ground arith

  at_space :
      (w : MonRequest) (k i : ℕ) (r : Action × MonRequest)
      → k ≤ longest_method
      → mon_end_of_method template monitoring_rsp epoll k w ≡ some r
      → read_requeststartmethod_mon template monitoring_rsp epoll k i b' ' w
        ≡ some (r.0, k + 1, r.1)
  unfolding read_requeststartmethod_mon
  at_space w k i r h e = rw short (rw e refl)
    where
      short : ltb longest_method k ≡ false
      short = ground arith

  -- `http_mon_handle_method` on a valid buffer that is not full, of a connection registered for
  -- reading, whose unread bytes are a word without spaces, of six bytes at most and not starting
  -- with a newline, a space, and any others: it takes out the word and the space, and goes on to the
  -- URL if the word is GET or HEAD, or to the response for an unknown method.
  pub mon_handle_method_lem :
      (w : MonRequest) (m t : List ℕ)
      → IsValid w.input
      → read_len w.input < buffer_size
      → (not w.epollout && w.epollin) ≡ true
      → contents w.input ≡ m ++ b' ' ∷ t
      → Avoids b' ' m
      → length m ≤ longest_method
      → Starts (m ++ b' ' ∷ t)
      → mon_handle_method template monitoring_rsp epoll w ≡ some (mon_stage_result m w)
  unfolding mon_handle_method
  mon_handle_method_lem w m t u room p e a l s =
      rw (p, skip_none w.input u room some_bytes (subst Starts (sym e) s), ◌>>=◌) (rw found refl)
    where
      some_bytes : 0 < read_len w.input
      some_bytes =
          omega (arith, sym (length-contents w.input) ∙ ap length e ∙ length-append m (b' ' ∷ t))

      found :
          iterate
            (λ x. x.input)
            (read_requeststartmethod_mon template monitoring_rsp epoll)
            (record w { method = 0 })
          ≡ some ((mon_stage_result m w).0, length m + 1, (mon_stage_result m w).1)
      found =
          iterate-until (λ x. x.input) (read_requeststartmethod_mon template monitoring_rsp epoll)
            (record w { method = 0 }) u room m t b' ' (length m + 1) (mon_stage_result m w).0
            (mon_stage_result m w).1 e
            (λ k h.
              pass (record w { method = 0 }) k (index (w.input.read_position + k)) (nth m k)
                (omega arith) (nth-Avoids b' ' m k a h))
            (mon_next_stage-stops (lookup m mon_methods) (length m + 1) w)
            (at_space (record w { method = 0 }) (length m)
              (index (w.input.read_position + length m)) (mon_stage_result m w) l
              (end_of_method_lem w m (b' ' ∷ t) u room e))
