-- ===== src/Http/Register.antt =====
-- The registration for events of src/core/connection.cpp, and the functions of
-- src/core/http_parse_cache.cpp that choose a response.
use simple_cache.Base.{Bool, true, false, some, if◌then◌else◌, length}
use simple_cache.Db.{Env}
use simple_cache.Http.{Action, Handler, World, Outside, on_conn, set_handler, set_state}
use simple_cache.Http.Templates.{Template, template}

module _ {v : Env} where
  abbrev pub set_output : Template → World v → World v
  set_output t =
      on_conn
        λ c. record c { output_buffer = some (template t); output_length = length (template t) }

  -- `http_stats_after_eol`
  unfoldable pub stats_after_eol : World v → Action × World v
  stats_after_eol w =
      (Action.needs_more_read, set_handler Handler.cache_handle_eolstats (set_state 0 w))

  -- `http_write_response_after_eol`
  unfoldable pub write_response_after_eol : Template → World v → Action × World v
  write_response_after_eol t w = (
    Action.needs_more_read,
    set_state 1 (set_output t (set_handler Handler.handle_eolwritetoend w)),
  )

  -- `http_headers_response_after_eol`
  unfoldable pub headers_response_after_eol : Template → World v → Action × World v
  headers_response_after_eol t w = (
    Action.needs_more_read,
    set_state 2 (set_output t (set_handler Handler.handle_eolwritetoend w)),
  )

module _ {v : Env} (o : Outside v) where
  -- `connection_register_write` and `connection_register_read`, with what the update of the event
  -- set returns
  unfoldable pub register_write : World v → Bool × World v
  register_write w = (o.epoll, on_conn (λ c. record c { epollout = true; epollin = false }) w)

  unfoldable pub register_read : World v → Bool × World v
  register_read w = (o.epoll, on_conn (λ c. record c { epollout = false; epollin = true }) w)

  -- `return res ? registered_write : close_connection` after `connection_register_write`
  abbrev pub registered : World v → Action × World v
  registered w =
      let r = register_write w in
      (if r.0 then Action.registered_write else Action.close_connection, r.1)

  -- `http_write_response`
  unfoldable pub write_response : Template → World v → Action × World v
  unfolding register_write
  write_response t w =
      registered (set_state 0 (set_output t (set_handler Handler.respond_writeonly w)))
