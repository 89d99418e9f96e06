-- ===== src/Http/Body.antt =====
-- The request's body, and the release of what a request holds: the last stage of
-- src/core/http_parse_cache.cpp, and `cache_destroy`.
pub mod Progress
use simple_cache.Base.{
  ℕ, zero, suc, ◌+◌, ◌-◌, ◌*◌, ◌%◌, ◌^◌, Bool, true, false, not, ◌&&◌, Option, none, some, ◌∷◌, ltb,
  leb, ◌==◌, if◌then◌else◌, ℤ, pos, negsuc, pos_part, ltb_ℤ, ◌>>=◌, ◌>>◌, assert, min,
}
use simple_cache.ReadBuffer.{ReadBuffer, index, read_to_end, memory, bytes_at}
use simple_cache.Store.{Ptr}
use simple_cache.Db.{Env, Db, modify_entry}
use simple_cache.Db.Refs.{complete_writing}
use simple_cache.Db.Delete.{entry_delete_found}
use simple_cache.Db.Tables.{table_close}
use simple_cache.Db.Targets.{CacheTarget, target_entry_close}
use simple_cache.Http.{Action, Conn, World, Outside, Handled, on_conn, on_target, move_input, on_db}
use simple_cache.Http.Methods.{level_key, level_table, request_is}
use simple_cache.Http.Templates.{Template}
use simple_cache.Http.Register.{write_response}
use simple_cache.Http.Extract.{move_input_by}

-- end_position - position, as a 64-bit word
abbrev pub to_come : CacheTarget → ℕ
to_come t = (t.end_position + 2 ^ 64 - t.position) % 2 ^ 64

-- position += n
abbrev pub advance : ℤ → CacheTarget → CacheTarget
advance (pos n) t = record t { position = (t.position + n) % 2 ^ 64 }
advance (negsuc n) t = record t { position = (t.position + 2 ^ 64 - (n + 1) % 2 ^ 64) % 2 ^ 64 }

module _ {v : Env} where
  -- The write of `count` bytes to the file at the target's position. What `write` reads must be
  -- within the array; its result is the number of bytes that it took, or negative.
  unfoldable pub write_body : ℤ → ℕ → World v → Option (World v)
  write_body result count w = do
    _ ← memory w.conn.input (index w.conn.input.read_position) (pos count)
    assert (leb (pos_part result) count)
    let t = w.conn.target
    let taken = bytes_at w.conn.input.buffer (index w.conn.input.read_position) (pos_part result)
    let w1 = record w { stored = (t.fd, t.position, taken) ∷ w.stored }
    some (on_target (advance result) (move_input_by result w1))

  -- The bytes are dropped where the request does not hold the entry.
  abbrev pub drop_body : ℕ → World v → World v
  drop_body count w = on_target (advance (pos count)) (move_input count w)

module _ {v : Env} (o : Outside v) where
  -- The end of `http_cache_handle_request_body`.
  unfoldable pub finish_body : World v → Handled v
  unfolding write_response
  finish_body w = do
    assert (ltb (to_come w.conn.target) (2 ^ 63))
    if w.conn.target.end_position == w.conn.target.position
        then (if w.conn.is_writing
            then (do
              p ← w.conn.target.entry
              w1 ← on_db (complete_writing p) w
              some (
                  write_response o Template.full200_ok
                    (on_conn (λ c. record c { is_writing = false }) w1)))
            else some (write_response o Template.full200_ok w))
        else some (Action.continue_processing, w)

  -- Its middle part, by whether the entry is being written and whether the seek succeeds.
  unfoldable pub take_body : Bool → Bool → ℕ → World v → Handled v
  take_body false seeks n w = finish_body (drop_body n w)
  take_body true false n w = some (write_response o Template.full404 w)
  take_body true true n w = do w1 ← write_body o.write n w; finish_body w1

  -- `http_cache_handle_request_body`. `to_write` is an `int`.
  unfoldable pub cache_handle_request_body : World v → Handled v
  cache_handle_request_body w = do
    assert (not (ltb_ℤ (read_to_end w.conn.input) (pos 0)))
    let wanted = to_come w.conn.target % 2 ^ 32
    assert (ltb wanted (2 ^ 31))
    let to_write = min wanted (pos_part (read_to_end w.conn.input))
    if to_write == 0 then finish_body w else take_body w.conn.is_writing o.seeks to_write w

  -- The part of `cache_destroy` for an entry that is still being written: it is deleted, and stays
  -- marked as written no more.
  unfoldable pub abandon_entry : World v → Option (World v)
  abandon_entry w = do
    p ← w.conn.target.entry
    e ← w.db.store.entries p
    d1 ← if e.deleted then some w.db else (do r ← entry_delete_found p w.db; some r.1)
    d2 ← modify_entry p (λ r. record r { writing = false }) d1
    some (on_conn (λ c. record c { is_writing = false }) (record w { db = d2 }))

  unfoldable pub close_entry : World v → Option (World v)
  close_entry w = elim w.conn.target.entry [
    | none ↦ some w
    | some p ↦ do
      r ← target_entry_close o.opened o.blockfile w.conn.target w.db
      some (on_target (λ t. r.0) (record w { db = r.1 }))
  ]

  unfoldable pub close_table : World v → Option (World v)
  close_table w = elim w.conn.target.entry [
    | none ↦ some w
    | some t ↦ do w1 ← on_db (table_close t) w; some (on_target (λ x. record x { entry = none }) w1)
  ]

  -- `cache_destroy`, which is `http_cleanup` of a connection to the cache
  unfoldable pub cache_destroy : World v → Option (World v)
  unfolding abandon_entry close_entry close_table
  cache_destroy w =
      if request_is w.conn.method level_key
      then (do w1 ← if w.conn.is_writing then abandon_entry w else some w; close_entry w1)
      else if request_is w.conn.method level_table
      then close_table w
      else some w
