-- ===== src/Http/Events/Send.antt =====
-- The writes of stored output by `http_write_handle`.
use simple_cache.Base.{
  ℕ, ◌-◌, ◌≤◌, ◌<◌, ◌≡◌, refl, ◌∙◌, arith, true, false, ◌&&◌, none, some, List, ◌∷◌, length, take,
  leb, ◌==◌, ==_self, pos, if◌then◌else◌,
}
use simple_cache.Db.{Env}
use simple_cache.Http.{Action, Handler, Sent, World, Outside, Handled, on_conn}
use simple_cache.Http.Events.{send_output, after_output, write_handle}

module _ {v : Env} where
  -- The state with `num` bytes of `out` sent, and `left` still to be.
  abbrev pub sent_part : ℕ → ℕ → List ℕ → World v → World v
  sent_part num left out w =
      on_conn (λ c. record c { output_buffer = some out; output_length = left })
        (record w { sent = Sent.text (take num out) ∷ w.sent })

  -- The state with all of `out` sent.
  abbrev pub sent_all : List ℕ → World v → World v
  sent_all out w =
      on_conn (λ c. record c { output_length = 0; output_buffer = none; output_free = false })
        (record w { sent = Sent.text (take w.conn.output_length out) ∷ w.sent })

  module _ (call : Handler → World v → Handled v) where
    write_part :
        (o : Outside v) (num : ℕ) (out : List ℕ) (w : World v)
        → o.send ≡ pos num
        → w.conn.output_buffer ≡ some out
        → w.conn.output_length ≤ length out
        → num < w.conn.output_length
        → write_handle o call w
          ≡ some (Action.continue_processing, sent_part num (w.conn.output_length - num) out w)
    unfolding write_handle send_output after_output
    write_part o num out w s b l h = rw (s, b) (rw (fits, differs) refl)
      where
        fits : (leb w.conn.output_length (length out) && leb num w.conn.output_length) ≡ true
        fits = ground arith

        differs : (w.conn.output_length == num) ≡ false
        differs = ground arith

    write_all :
        (o : Outside v) (out : List ℕ) (w : World v)
        → o.send ≡ pos (w.conn.output_length)
        → w.conn.output_buffer ≡ some out
        → w.conn.output_length ≤ length out
        → write_handle o call w ≡ (
            if w.conn.epollout
            then call w.conn.handler (sent_all out w)
            else some (Action.continue_processing, sent_all out w))
    unfolding write_handle send_output after_output
    write_all o out w s b l = rw (s, b) (rw (fits, ==_self w.conn.output_length) refl)
      where
        fits :
            (leb w.conn.output_length (length out) && leb w.conn.output_length w.conn.output_length)
            ≡ true
        fits = ground arith

    -- A response that the socket takes in two parts goes out wrong: after the first `num` bytes of
    -- it the second write starts at its beginning again, and what is sent last are its first bytes,
    -- as many as were missing. Then the response counts as sent, and the handler is called.
    pub write_handle_resends :
        (o o' : Outside v) (num : ℕ) (out : List ℕ) (w : World v)
        → w.conn.output_buffer ≡ some out
        → w.conn.output_length ≤ length out
        → num < w.conn.output_length
        → w.conn.epollout ≡ true
        → o.send ≡ pos num
        → o'.send ≡ pos (w.conn.output_length - num)
        → (u : World v) × (write_handle o call w ≡ some (Action.continue_processing, u))
          × (write_handle o' call u ≡ call w.conn.handler (sent_all out u))
          × ((sent_all out u).sent
              ≡ Sent.text (take (w.conn.output_length - num) out)
                ∷ Sent.text (take num out)
                ∷ w.sent)
    write_handle_resends o o' num out w b l h p s s' = (
      sent_part num (w.conn.output_length - num) out w,
      write_part o num out w s b l h,
      write_all o' out (sent_part num (w.conn.output_length - num) out w) s' refl (omega arith)
          ∙ rw p refl,
      refl,
    )
