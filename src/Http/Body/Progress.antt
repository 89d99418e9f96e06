-- ===== src/Http/Body/Progress.antt =====
-- What `http_cache_handle_request_body` writes to the entry's file.
use simple_cache.Base.{
  ℕ, ◌+◌, ◌-◌, ◌%◌, ◌^◌, ◌≤◌, ◌<◌, ◌≡◌, refl, sym, ap, ap₂, ◌∙◌, arith, true, false, not, some, ◌∷◌,
  ltb, leb, ◌==◌, pos, ltb_ℤ, min, take, ◌>>=◌,
}
use simple_cache.ReadBuffer.{ReadBuffer, buffer_size, index, read_len, bytes_at, read_move}
use simple_cache.ReadBuffer.Bounds.{IsValid, contiguous, read_to_end_lem}
use simple_cache.ReadBuffer.Contents.{contents, take-window, memory-window, bytes_at-window}
use simple_cache.Db.{Env, Db}
use simple_cache.Db.Refs.{complete_writing}
use simple_cache.Db.Targets.{CacheTarget}
use simple_cache.Http.{Action, World, Outside, on_conn}
use simple_cache.Http.Templates.{Template}
use simple_cache.Http.Register.{write_response}
use simple_cache.Http.Extract.{move_by}
use simple_cache.Http.Body.{to_come, write_body, finish_body, take_body, cache_handle_request_body}

-- The target is a range of at most `int` many bytes.
pub record IsRange (t : CacheTarget) : Type 0 where
  pub ordered : t.position ≤ t.end_position
  pub word : t.end_position < 2 ^ 64
  pub short : t.end_position - t.position < 2 ^ 31

taken :
    (b : ReadBuffer) (k : ℕ)
    → k ≤ contiguous b
    → bytes_at b.buffer (index b.read_position) k ≡ take k (contents b)
taken b k h =
    bytes_at-window b.buffer b.read_position (index b.read_position) k refl (omega arith)
    ∙ sym (take-window b.buffer b.read_position k (read_len b) (omega arith))

module _ {v : Env} where
  -- The state after the `k` unread bytes that come first went to the file.
  abbrev pub body_stored : ℕ → World v → World v
  body_stored k w =
      on_conn
        (λ c. record c {
          input = read_move c.input k;
          target = record c.target { position = (c.target.position + k) % 2 ^ 64 };
        })
        (record w {
          stored =
              (w.conn.target.fd, w.conn.target.position, take k (contents w.conn.input)) ∷ w.stored;
        })

  -- How many bytes one call takes.
  abbrev pub step : World v → ℕ
  step w = min (w.conn.target.end_position - w.conn.target.position) (contiguous w.conn.input)

  write_body_lem :
      (w : World v) (k : ℕ)
      → k ≤ contiguous w.conn.input
      → write_body (pos k) k w ≡ some (body_stored k w)
  unfolding write_body move_by
  write_body_lem w k h =
      rw
        (
          memory-window w.conn.input w.conn.input.read_position (index w.conn.input.read_position) k
              refl (omega arith),
          ◌>>=◌,
          leb_self k,
          taken w.conn.input k h,
        )
        refl
    where
      leb_self : (n : ℕ) → leb n n ≡ true
      leb_self n = ground arith

  -- The state with the entry's writing completed, in the database `d`.
  abbrev pub completed : Db v → World v → World v
  completed d w = on_conn (λ c. record c { is_writing = false }) (record w { db = d })

module _ {v : Env} (o : Outside v) (w : World v) (u : IsValid w.conn.input)
    (room : read_len w.conn.input < buffer_size) (r : IsRange w.conn.target) (more : 0 < step w)
    (whole : o.write ≡ pos (step w)) (writing : w.conn.is_writing ≡ true)
    (seeks : o.seeks ≡ true) where
  wanted : to_come w.conn.target % 2 ^ 32 ≡ w.conn.target.end_position - w.conn.target.position
  wanted = omega (arith, r)

  no_fault : (n : ℕ) → not (ltb_ℤ (pos n) (pos 0)) ≡ true
  no_fault n = ground arith

  short : ltb (w.conn.target.end_position - w.conn.target.position) (2 ^ 31) ≡ true
  short = ground (arith, r)

  some_step : (step w == 0) ≡ false
  some_step = ground arith

  taken_whole :
      take_body o w.conn.is_writing o.seeks (step w) w ≡ finish_body o (body_stored (step w) w)
  unfolding take_body
  taken_whole =
      ap₂ (λ p q. take_body o p q (step w) w) writing seeks
      ∙ ap (λ r. write_body r (step w) w >>= finish_body o) whole
      ∙ ap (λ x. x >>= finish_body o) (write_body_lem w (step w) (omega arith))

  -- The call stores the bytes, and then looks whether they were the last.
  handle_writes : cache_handle_request_body o w ≡ finish_body o (body_stored (step w) w)
  unfolding cache_handle_request_body
  handle_writes =
      rw (read_to_end_lem w.conn.input u room, wanted)
        (rw (no_fault (contiguous w.conn.input), short, ◌>>=◌, some_step) taken_whole)

  -- A call of `http_cache_handle_request_body` for an entry that is being written, on a valid buffer
  -- that is not full and a target that is a range, where the seek and the whole write succeed,
  -- writes the first unread bytes, as many as are contiguous and wanted, to the entry's file at the
  -- target's position, and takes them out. If more are wanted it waits for them; if not the
  -- entry's writing is completed, and the request is answered.
  pub cache_handle_request_body_lem :
      (step w < w.conn.target.end_position - w.conn.target.position
        → cache_handle_request_body o w ≡ some (Action.continue_processing, body_stored (step w) w))
      × ((p : ℕ) (d : Db v)
          → step w ≡ w.conn.target.end_position - w.conn.target.position
          → w.conn.target.entry ≡ some p
          → complete_writing p w.db ≡ some d
          → cache_handle_request_body o w
            ≡ some (write_response o Template.full200_ok (completed d (body_stored (step w) w))))
  unfolding finish_body
  cache_handle_request_body_lem = (
    λ h. handle_writes ∙ rw (ordered, ◌>>=◌) (rw (going h) refl),
    λ p d h e c.
        handle_writes ∙ rw (ordered, ◌>>=◌) (rw (finished h, writing, e) (rw (c, ◌>>=◌) refl)),
  )
    where
      ordered : ltb (to_come (body_stored (step w) w).conn.target) (2 ^ 63) ≡ true
      ordered = ground (arith, r)

      going :
          step w < w.conn.target.end_position - w.conn.target.position
          → (w.conn.target.end_position == (w.conn.target.position + step w) % 2 ^ 64) ≡ false
      going h = ground (arith, r)

      finished :
          step w ≡ w.conn.target.end_position - w.conn.target.position
          → (w.conn.target.end_position == (w.conn.target.position + step w) % 2 ^ 64) ≡ true
      finished h = ground (arith, r)
