-- ===== src/Http/Newlines.antt =====
-- src/core/http_parse.cpp: newlines before and after a request.
pub mod Eol
pub mod Blank
pub mod Skip
use simple_cache.Base.{
  ℕ, zero, suc, ◌+◌, ◌*◌, ◌/◌, ◌%◌, ◌^◌, Bool, true, false, not, ◌&&◌, Option, some, ◌==◌,
  if◌then◌else◌, pos, pos_part, eqb_ℤ, ◌-ℤ◌, ◌>>=◌,
}
use simple_cache.ReadBuffer.{ReadBuffer, index, read_remaining, read_to_end, read_move}
use simple_cache.Db.{Env}
use simple_cache.Http.{
  Action, Handler, World, Outside, Handled, Iterated, set_handler, set_state, move_input, next_n,
}
use simple_cache.Http.Iterate.{load_byte, iterate}
use simple_cache.Http.Register.{register_write, register_read}

-- One of the loops of `skip_over_newlines`, `count` rounds at most, with the pointer at index `i`:
-- whether the function returns from it, where the pointer is after it, and the buffer.
unfoldable pub skip_loop : ℕ → ℕ → ReadBuffer → Option (Bool × ℕ × ReadBuffer)
skip_loop zero i b = some (false, i, b)
skip_loop (suc count) i b = do
  c ← load_byte b i
  elim (not (c == b'\r') && not (c == b'\n')) [
    | true ↦ some (true, i, b)
    | false ↦ skip_loop count (i + 1) (read_move b 1)
  ]

-- `skip_over_newlines`. The second loop goes on with the pointer of the first.
unfoldable pub skip_over_newlines : ReadBuffer → Option ReadBuffer
unfolding skip_loop
skip_over_newlines b =
    let end = read_to_end b in
    if eqb_ℤ end (pos 0) then some b else (do
      r ← skip_loop (pos_part end) (index b.read_position) b
      if r.0 then some r.2 else (do
        let rest = pos (read_remaining r.2) -ℤ end
        s ← skip_loop (pos_part rest) r.1 r.2
        some s.2))

-- The first part of `http_read_eoltoend`: the newlines in a row that the high half of the state
-- counts, after the byte `c`.
abbrev pub count_newlines : ℕ → ℕ → ℕ
count_newlines current c =
    if c == b'\n'
    then (current + 1) % 2 ^ 16
    else if not (c == b'\r') && not (current == 0)
    then 0
    else current

module _ {v : Env} where
  -- What follows `RBUF_ITERATE` there: what was only looked at is taken out.
  abbrev pub discard_seen : Action × ℕ × World v → Action × World v
  discard_seen (Action.needs_more_read, n, w) = (Action.needs_more_read, move_input n w)
  discard_seen (a, n, w) = (a, w)

module _ {v : Env} (o : Outside v) where
  -- `http_read_eoltoend` with `connection->state` as `temporary`
  unfoldable pub read_eoltoend : ℕ → ℕ → ℕ → World v → Iterated v
  unfolding register_write
  read_eoltoend n i c w =
      let target = w.conn.state % 2 ^ 16 in
      let current = count_newlines (w.conn.state / 2 ^ 16) c in
      if target == current
      then (let r = register_write o (set_handler Handler.respond_writeonly (set_state 0 w)) in
          next_n n (
            some (
              if r.0
              then (Action.registered_write, move_input n r.1)
              else (Action.close_connection, r.1))))
      else next_n n (some (Action.continue_processing, set_state (target + current * 2 ^ 16) w))

  -- `http_handle_eolwritetoend`
  unfoldable pub handle_eolwritetoend : World v → Handled v
  unfolding read_eoltoend
  handle_eolwritetoend w = do r ← iterate (λ x. x.conn.input) read_eoltoend w; some (discard_seen r)

  -- `http_cache_handle_eolstats`
  unfoldable pub cache_handle_eolstats : World v → Handled v
  unfolding read_eoltoend
  cache_handle_eolstats w = do
    r ← iterate (λ x. x.conn.input) read_eoltoend w
    let s = discard_seen r
    some (elim s.0 [
      | Action.registered_write ↦ (s.0, set_handler Handler.respond_stats s.1)
      | _ ↦ s
    ])

  -- `http_discard_input`
  unfoldable pub discard_input : World v → Handled v
  unfolding register_read
  discard_input w = some (Action.continue_processing, (register_read o w).1)
