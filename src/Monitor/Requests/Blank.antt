-- ===== src/Monitor/Requests/Blank.antt =====
-- The end of a monitoring request, behind which its answer is written.
use simple_cache.Base.{
  ℕ, suc, ◌+◌, ◌*◌, ◌/◌, ◌%◌, ◌^◌, ◌<◌, ◌≡◌, refl, sym, ap, ◌∙◌, arith, Bool, true, false, List, [],
  ◌∷◌, some, length, ==_ne,
}
use simple_cache.ReadBuffer.{buffer_size, index, read_len}
use simple_cache.ReadBuffer.Bounds.{IsValid}
use simple_cache.ReadBuffer.Contents.{contents}
use simple_cache.Http.{Action}
use simple_cache.Http.Iterate.{iterate}
use simple_cache.Http.Iterate.Scan.{stops}
use simple_cache.Http.Iterate.Until.{nth, Avoids, iterate-through}
use simple_cache.Http.Newlines.{count_newlines}
use simple_cache.Http.Newlines.Blank.{
  counts, text, IsText, counts-step, Run, Run-below, Run-counts, Run-request, text-append,
}
use simple_cache.Monitor.Requests.{
  MonTemplate, MonHandler, MonRequest, move_by, discard_rest, mon_read_eol_inital,
  mon_eolwrite_initial,
}

-- The bytes up to the CR of the blank line, and their number.
abbrev request_head : List ℕ → List (List ℕ) → List ℕ
request_head l ls = text (l ∷ ls) (b'\r' ∷ [])

abbrev pub head_size : List ℕ → List (List ℕ) → ℕ
head_size l ls = length (request_head l ls)

-- The state that waits for two newlines, `k` of them seen in a row.
abbrev pub awaiting : ℕ → MonRequest → MonRequest
awaiting k w = record w { state = 2 + k * 2 ^ 16 }

module _ (template : MonTemplate → List ℕ) (monitoring_rsp : List ℕ) (epoll : Bool) where
  -- The response is to be written, or the connection closed if the event set could not be changed.
  abbrev pub mon_answered : Bool → ℕ → MonRequest → Action × MonRequest
  mon_answered p n w =
      let w1 = record w {
        state = 0;
        output = some monitoring_rsp;
        handler = MonHandler.at_start_to_count;
        epollout = true;
        epollin = false;
      } in
      elim p [
        | true ↦ (Action.registered_write, move_by n w1)
        | false ↦ (Action.close_connection, w1)
      ]

  eol-pass :
      (w : MonRequest) (k i c n m : ℕ)
      → count_newlines n c ≡ m
      → m < 2
      → mon_read_eol_inital template monitoring_rsp epoll k i c (awaiting n w)
        ≡ some (Action.continue_processing, k + 1, awaiting m w)
  unfolding mon_read_eol_inital
  eol-pass w k i c n m e h = rw (target, seen, e, ==_ne 2 m (omega arith)) refl
    where
      target : (2 + n * 2 ^ 16) % 2 ^ 16 ≡ 2
      target = omega arith

      seen : (2 + n * 2 ^ 16) / 2 ^ 16 ≡ n
      seen = omega arith

  eol-stop :
      (p : Bool) (w : MonRequest) (k i : ℕ)
      → epoll ≡ p
      → mon_read_eol_inital template monitoring_rsp epoll k i b'\n' (awaiting 1 w)
        ≡ some ((mon_answered p k w).0, k + 1, (mon_answered p k w).1)
  unfolding mon_read_eol_inital
  eol-stop true w k i e = rw e refl
  eol-stop false w k i e = rw e refl

  answered-stops :
      (p : Bool) (k n : ℕ) (w : MonRequest)
      → (stops (mon_answered p k w).0 ≡ true)
        × (discard_rest template monitoring_rsp epoll
              ((mon_answered p k w).0, n, (mon_answered p k w).1)
            ≡ mon_answered p k w)
  answered-stops true k n w = (refl, refl)
  answered-stops false k n w = (refl, refl)

  -- `http_handle_mon_eolwrite_initial` in the state that waits for two newlines in a row, on a valid
  -- buffer that is not full, whose unread bytes are the rest of a line, the lines of the headers and
  -- a blank line: it passes over them and has the response of a monitoring connection written, or
  -- closes the connection if that cannot be registered. All up to the last newline is taken out.
  -- The lines of the headers are not empty, and CR and LF stand only at the end of a line.
  pub mon_eolwrite_initial_lem :
      (w : MonRequest) (l : List ℕ) (ls : List (List ℕ)) (t : List ℕ)
      → IsValid w.input
      → read_len w.input < buffer_size
      → contents w.input ≡ text (l ∷ ls) (b'\r' ∷ b'\n' ∷ t)
      → Avoids b'\r' l
      → Avoids b'\n' l
      → IsText ls
      → mon_eolwrite_initial template monitoring_rsp epoll (awaiting 0 w)
        ≡ some (mon_answered epoll (head_size l ls) w)
  unfolding mon_eolwrite_initial
  mon_eolwrite_initial_lem w l ls t u room e p q a =
      rw found (ap some (answered-stops epoll (head_size l ls) (head_size l ls + 1) w).1)
    where
      run : Run 0 (request_head l ls) 1
      run = Run-request l ls p q a

      place : ℕ → ℕ
      place k = index (w.input.read_position + k)

      seen : ℕ → MonRequest
      seen k = awaiting (counts 0 (request_head l ls) k) w

      pass :
          (k : ℕ)
          → k < head_size l ls
          → mon_read_eol_inital template monitoring_rsp epoll k
              (place k)
              (nth (request_head l ls) k)
              (seen k)
            ≡ some (Action.continue_processing, k + 1, seen (k + 1))
      pass k h =
          eol-pass w k (place k) (nth (request_head l ls) k) (counts 0 (request_head l ls) k)
            (counts 0 (request_head l ls) (suc k)) (sym (counts-step 0 (request_head l ls) k h))
            (Run-below 0 (request_head l ls) 1 k run h)
          ∙ ap (λ j. some (Action.continue_processing, k + 1, seen j)) {x = suc k} (omega arith)

      stop :
          mon_read_eol_inital template monitoring_rsp epoll
            (head_size l ls)
            (place (head_size l ls))
            b'\n'
            (seen (head_size l ls))
          ≡ some (
            (mon_answered epoll (head_size l ls) w).0,
            head_size l ls + 1,
            (mon_answered epoll (head_size l ls) w).1,
          )
      stop =
          ap
            (λ c.
              mon_read_eol_inital template monitoring_rsp epoll (head_size l ls)
                (place (head_size l ls)) b'\n' (awaiting c w))
            (Run-counts 0 (request_head l ls) 1 run)
          ∙ eol-stop epoll w (head_size l ls) (place (head_size l ls)) refl

      found :
          iterate (λ x. x.input) (mon_read_eol_inital template monitoring_rsp epoll) (awaiting 0 w)
          ≡ some (
            (mon_answered epoll (head_size l ls) w).0,
            head_size l ls + 1,
            (mon_answered epoll (head_size l ls) w).1,
          )
      found =
          iterate-through (λ x. x.input) (mon_read_eol_inital template monitoring_rsp epoll) w.input
            seen (λ k. refl) u room (request_head l ls) t b'\n' (head_size l ls + 1)
            (mon_answered epoll (head_size l ls) w).0 (mon_answered epoll (head_size l ls) w).1
            (e ∙ sym (text-append (l ∷ ls) (b'\r' ∷ []) (b'\n' ∷ t))) pass
            (answered-stops epoll (head_size l ls) 0 w).0 stop
