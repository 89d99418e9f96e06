-- ===== src/Monitor/Requests/Overrun.antt =====
-- The space after the URL of a monitoring request, for a path that the server does not have.
use simple_cache.Base.{
  ℕ, zero, suc, ◌+◌, ◌-◌, ◌^◌, ◌<◌, ◌≡◌, ◌≢◌, refl, sym, ap, ◌∙◌, arith, Bool, true, not, ◌&&◌,
  List, [], ◌∷◌, ◌++◌, some, length, take, length-append, take-append, ==_ne, ◌>>=◌,
}
use simple_cache.ReadBuffer.{buffer_size, index, read_len, read_move}
use simple_cache.ReadBuffer.Bounds.{IsValid, read_move-IsValid}
use simple_cache.ReadBuffer.Contents.{contents}
use simple_cache.Http.{Action}
use simple_cache.Http.Iterate.{iterate}
use simple_cache.Http.Iterate.Until.{nth, Avoids, nth-Avoids, length-contents, iterate-until}
use simple_cache.Http.Url.{copy_string}
use simple_cache.Http.Url.Space.{copy_string_lem, contents-read_move}
use simple_cache.Monitor.Requests.{
  MonTemplate, MonRequest, move_by, after_eol, answer_url, mon_read_requeststarturl, mon_handle_url,
}

module _ (template : MonTemplate → List ℕ) (monitoring_rsp : List ℕ) (epoll : Bool) where
  -- The answer to a request for a path that there is not, once `n` bytes are taken out behind one.
  abbrev pub not_found : ℕ → MonRequest → Action × MonRequest
  not_found n w =
      after_eol template monitoring_rsp epoll 0 MonTemplate.full404_path_not_found
        (move_by n (move_by 1 w))

  url-first :
      (w : MonRequest) (i : ℕ)
      → mon_read_requeststarturl template monitoring_rsp epoll 0 i b'/' w
        ≡ some (Action.continue_processing, 1, w)
  unfolding mon_read_requeststarturl
  url-first w i = refl

  url-pass :
      (w : MonRequest) (k i c : ℕ)
      → k ≢ 0
      → c ≢ b' '
      → mon_read_requeststarturl template monitoring_rsp epoll k i c w
        ≡ some (Action.continue_processing, k + 1, w)
  unfolding mon_read_requeststarturl
  url-pass w k i c h q = rw (==_ne k 0 h, ==_ne c b' ' q) refl

  url-space :
      (w : MonRequest) (k i : ℕ) (key : List ℕ)
      → k ≢ 0
      → k ≢ 1
      → k ≢ 5
      → copy_string (read_move w.input 1) (k - 1) ≡ some key
      → mon_read_requeststarturl template monitoring_rsp epoll k i b' ' w
        ≡ some ((not_found (k + 1) w).0, k + 1, (not_found (k + 1) w).1)
  unfolding mon_read_requeststarturl answer_url
  url-space w k i key h h1 h5 c = rw (==_ne k 0 h, c, ==_ne k 1 h1, ==_ne k 5 h5) refl

  -- A monitoring request at the start of its URL, of a valid buffer that is not full and ends with
  -- the space after the URL, of a connection registered for reading, is answered with the template
  -- for an unknown path, and takes out one byte too many: the read position passes the write
  -- position, and 65535 bytes count as unread. The path has no space, is not empty and does not have
  -- the length of "conn".
  pub mon_handle_url-overruns :
      (w : MonRequest) (name : List ℕ)
      → IsValid w.input
      → read_len w.input < buffer_size
      → (not w.epollout && w.epollin) ≡ true
      → contents w.input ≡ b'/' ∷ (name ++ b' ' ∷ [])
      → length name ≢ 0
      → length name ≢ 4
      → Avoids b' ' name
      → (mon_handle_url template monitoring_rsp epoll w ≡ some (not_found (length name + 2) w))
        × (read_len (not_found (length name + 2) w).1.input ≡ 2 ^ 16 - 1)
  unfolding mon_handle_url read_len read_move
  mon_handle_url-overruns w name u room p e ne four a = (rw (p, ◌>>=◌, found) refl, overrun)
    where
      size : read_len w.input ≡ length name + 2
      size =
          omega (arith, sym (length-contents w.input) ∙ ap length e, length-append name (b' ' ∷ []))

      pass :
          (k : ℕ)
          → k < suc (length name)
          → mon_read_requeststarturl template monitoring_rsp epoll k
              (index (w.input.read_position + k))
              (nth (b'/' ∷ name) k)
              w
            ≡ some (Action.continue_processing, k + 1, w)
      pass zero h = url-first w (index (w.input.read_position + 0))
      pass (suc k) h =
          url-pass w (suc k) (index (w.input.read_position + suc k)) (nth name k) (omega arith)
            (nth-Avoids b' ' name k a (omega arith))

      copied : copy_string (read_move w.input 1) (length name) ≡ some name
      copied =
          let moved = read_move-IsValid w.input 1 u (omega (arith, size)) in
          copy_string_lem (read_move w.input 1) (length name) moved.0 (omega (arith, moved.1))
            (omega (arith, moved.1, size))
          ∙ ap (λ x. some (take (length name) x))
              (contents-read_move w.input b'/' (name ++ b' ' ∷ []) u e)
          ∙ ap some (take-append name (b' ' ∷ []))

      at_space :
          mon_read_requeststarturl template monitoring_rsp epoll
            (suc (length name))
            (index (w.input.read_position + suc (length name)))
            b' '
            w
          ≡ some (
            (not_found (length name + 2) w).0,
            length name + 2,
            (not_found (length name + 2) w).1,
          )
      at_space =
          url-space w (suc (length name)) (index (w.input.read_position + suc (length name))) name
            (omega arith) (omega arith) (omega arith)
            (ap (copy_string (read_move w.input 1)) (omega arith) ∙ copied)
          ∙ ap (λ k. some ((not_found k w).0, k, (not_found k w).1)) (omega arith)

      overrun : read_len (not_found (length name + 2) w).1.input ≡ 2 ^ 16 - 1
      overrun = omega (arith, size, u)

      found :
          iterate (λ x. x.input) (mon_read_requeststarturl template monitoring_rsp epoll) w
          ≡ some (
            (not_found (length name + 2) w).0,
            length name + 2,
            (not_found (length name + 2) w).1,
          )
      found =
          iterate-until (λ x. x.input) (mon_read_requeststarturl template monitoring_rsp epoll) w u
            room (b'/' ∷ name) [] b' ' (length name + 2) Action.needs_more_read
            (not_found (length name + 2) w).1 e pass refl at_space
