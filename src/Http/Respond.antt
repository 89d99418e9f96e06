-- ===== src/Http/Respond.antt =====
-- The responses of src/core/http_respond.cpp to requests for entries, and the statistics. What
-- reads the next request from the connection, `http_read_handle`, is an argument here.
use simple_cache.Base.{
  ℕ, ◌+◌, Bool, true, not, ◌&&◌, ◌||◌, Option, none, some, List, ◌∷◌, ◌++◌, ltb, ◌==◌, leb,
  if◌then◌else◌, pos, sub_ℕ, eqb_ℤ, length, ◌>>=◌, ◌>>◌, assert,
}
use simple_cache.ReadBuffer.{write_remaining}
use simple_cache.Db.{Env, Db}
use simple_cache.Http.{
  Action, Handler, World, Outside, Handled, Transfer, Sent, on_conn, set_handler, on_target,
}
use simple_cache.Http.Methods.{http_get, http_head, level_key, request_is}
use simple_cache.Http.Templates.{Template, codes}
use simple_cache.Http.Register.{set_output, register_read}
use simple_cache.Http.Body.{to_come, advance, cache_destroy}
use simple_cache.Base.Decimal.{decimal, signed_decimal, int_of}

-- A request for an entry's contents or headers.
abbrev pub gets_key : ℕ → Bool
gets_key m = request_is m (http_get + level_key) || request_is m (http_head + level_key)

-- `HTTPTEMPLATE_200CONTENT_LENGTH` with its argument
unfoldable pub content_length_headers : ℕ → List ℕ
content_length_headers n =
    codes "HTTP/1.1 200 OK\r\nConnection: Keep-Alive\r\nContent-Length: "
    ++ decimal n
    ++ codes "\r\n\r\n"

module _ {v : Env} where
  -- `copy_to_outputbuffer`
  unfoldable pub copy_to_outputbuffer : List ℕ → World v → World v
  copy_to_outputbuffer header = on_conn λ c. record c {
    output_buffer = some header;
    output_free = true;
    output_length = length header;
  }

  -- `http_respond_expires`
  unfoldable pub respond_expires : World v → Handled v
  unfolding copy_to_outputbuffer
  respond_expires w =
      if gets_key w.conn.method
      then (do
        p ← w.conn.target.entry
        e ← w.db.store.entries p
        let ttl = if e.expires == 0 then pos 0 else sub_ℕ e.expires v.now
        some (
          Action.continue_processing,
          set_handler Handler.respond_contentlength
              (copy_to_outputbuffer (codes "X-Ttl: " ++ signed_decimal ttl ++ codes "\r\n") w),
        ))
      else some (Action.continue_processing, set_handler Handler.respond_contentlength w)

  -- `http_respond_contentlength`
  unfoldable pub respond_contentlength : World v → Handled v
  unfolding copy_to_outputbuffer
  respond_contentlength w = do
    p ← w.conn.target.entry
    e ← w.db.store.entries p
    some (
      Action.continue_processing,
      set_handler Handler.respond_responseend (
          copy_to_outputbuffer
            (codes "Content-Length: " ++ signed_decimal (int_of e.data_length) ++ codes "\r\n") w),
    )

  -- `assert(connection->epollout && !connection->epollin)`
  abbrev pub writable : World v → Bool
  writable w = w.conn.epollout && not w.conn.epollin

  -- `http_respond_responseend`
  unfoldable pub respond_responseend : World v → Handled v
  respond_responseend w = do
    assert (writable w)
    some (
      Action.continue_processing,
      set_handler
          (if request_is w.conn.method http_get
            then Handler.respond_contentbody
            else if request_is w.conn.method http_head
            then Handler.respond_reset_connection
            else Handler.respond_writeonly)
          (set_output Template.newline w),
    )

module _ {v : Env} (o : Outside v) where
  -- The text of `http_respond_stats`.
  unfoldable pub stats : Db v → List ℕ
  unfolding decimal
  stats d =
      codes "DB Keys: "
      ++ decimal d.keys
      ++ codes "\r\nDB Tables: "
      ++ decimal (v.kh.size d.tables)
      ++ codes "\r\nDB Size Bytes: "
      ++ decimal d.size_bytes
      ++ codes "\r\nDB Blocks Free: "
      ++ decimal d.blocks.blocks_free
      ++ codes "/"
      ++ decimal d.blocks.blocks_exist
      ++ codes "\r\nDB Stats Deletes: "
      ++ decimal d.deletes
      ++ codes "\r\nDB Stats Gets: "
      ++ decimal d.gets
      ++ codes "\r\nDB Stats Inserts: "
      ++ decimal d.inserts
      ++ codes "\r\nScache Version: "
      ++ o.version
      ++ codes "\r\nScache Revision: "
      ++ o.revision
      ++ codes "\r\n"

  -- `http_respond_stats`; the text is to be shorter than `stat_buffer`.
  unfoldable pub respond_stats : World v → Handled v
  unfolding stats content_length_headers copy_to_outputbuffer
  respond_stats w = do
    assert (writable w)
    let content = stats w.db
    assert (ltb (length content) 4096)
    some (
      Action.continue_processing,
      set_handler Handler.respond_writeonly
          (copy_to_outputbuffer (content_length_headers (length content) ++ content) w),
    )

  -- `http_respond_cleanupafterwrite`
  unfoldable pub respond_cleanupafterwrite : World v → Handled v
  unfolding register_read
  respond_cleanupafterwrite w = do
    assert (writable w)
    let w1 = on_conn (λ c. record c { output_buffer = none; output_length = 0 }) w
    some (Action.continue_processing, (register_read o (set_handler Handler.discard_input w1)).1)

  module _ (read_handle : World v → Handled v) where
    -- `http_register_read`
    unfoldable pub http_register_read : World v → Option (Bool × World v)
    unfolding register_read
    http_register_read w = do
      let r = register_read o w
      if not o.stop_soon && not (eqb_ℤ (write_remaining r.1.conn.input) (pos 0))
          then (do s ← read_handle r.1; some (r.0, s.1))
          else some r

    -- The end of a response: clean up, and go on with the next request.
    abbrev pub next_request : World v → Handled v
    next_request w = do
      w1 ← cache_destroy o w
      r ← http_register_read (set_handler Handler.cache_handle_method w1)
      some ((if r.0 then Action.continue_processing else Action.close_connection), r.1)

    -- `http_respond_reset_connection`
    unfoldable pub respond_reset_connection : World v → Handled v
    unfolding http_register_read
    respond_reset_connection w = do assert (writable w); next_request w

    -- `http_respond_writeonly`
    unfoldable pub respond_writeonly : World v → Handled v
    unfolding http_register_read
    respond_writeonly w = do assert (writable w); next_request w

    -- The end of `http_respond_contentbody`.
    unfoldable pub body_sent : World v → Handled v
    unfolding http_register_read
    body_sent w = do
      assert (leb w.conn.target.position w.conn.target.end_position)
      if w.conn.target.position == w.conn.target.end_position
          then next_request w
          else some (Action.continue_processing, w)

    -- `http_respond_contentbody`
    unfoldable pub respond_contentbody : World v → Handled v
    unfolding body_sent
    respond_contentbody w = do
      assert (writable w)
      let t = w.conn.target
      if to_come t == 0 then body_sent w else elim o.sendfile [
        | Transfer.interrupted ↦ some (Action.continue_processing, w)
        | Transfer.broken ↦ some (Action.close_connection, w)
        | Transfer.moved n ↦
            if n == 0
            then some (Action.close_connection, w)
            else body_sent (
                on_target (advance (pos n))
                  (record w { sent = Sent.file t.fd t.position n ∷ w.sent }))
      ]
