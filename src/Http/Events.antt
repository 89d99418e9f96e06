-- ===== src/Http/Events.antt =====
-- src/core/http.cpp, and the handling of a connection's events in src/core/connection.cpp. Handlers
-- call each other through `http_register_read`, so calls are counted by depth: a write handler calls
-- read handlers, and these call none. `none` is a fault, or the end of the depth or of the fuel.
pub mod Send
use simple_cache.Base.{
  ℕ, zero, suc, ◌+◌, ◌-◌, ◌%◌, ◌^◌, Bool, true, false, not, ◌&&◌, ◌||◌, Option, none, some, List,
  [], ◌∷◌, ◌⊎◌, inl, inr, ltb, leb, ◌==◌, if◌then◌else◌, ℤ, pos, negsuc, eqb_ℤ, length, take, ◌>>=◌,
  ◌>>◌, assert,
}
use simple_cache.ReadBuffer.{
  ReadBuffer, index, read_remaining, write_remaining, write_to_end, write_move,
}
use simple_cache.Db.{Env}
use simple_cache.Http.{
  Action, Handler, Received, Sent, Conn, World, Outside, Handled, on_conn, set_handler, set_state,
}
use simple_cache.Http.Newlines.{handle_eolwritetoend, cache_handle_eolstats, discard_input}
use simple_cache.Http.Method.{cache_handle_method}
use simple_cache.Http.Url.{cache_handle_url, cache_handle_httpversion}
use simple_cache.Http.Headers.{cache_handle_headers}
use simple_cache.Http.Extract.{cache_handle_headers_extract}
use simple_cache.Http.Body.{cache_handle_request_body, cache_destroy}
use simple_cache.Http.Respond.{
  respond_expires, respond_contentlength, respond_stats, respond_responseend,
  respond_cleanupafterwrite, respond_reset_connection, respond_writeonly, respond_contentbody,
}
use simple_cache.Http.Listing.{
  respond_listingentries, respond_listingtotal, respond_listing_separator, respond_listing,
}

-- The array with the bytes `xs` from index `i` on.
unfoldable pub put_bytes : List ℕ → ℕ → (ℕ → ℕ) → ℕ → ℕ
put_bytes [] i f = f
put_bytes (x ∷ xs) i f = put_bytes xs (i + 1) (λ j. if j == i then x else f j)

-- The buffer after the "optimization": an empty one starts at index 0.
unfoldable pub rewind : ReadBuffer → ReadBuffer
rewind b =
    if b.write_position == b.read_position
    then record b { read_position = 0; write_position = 0 }
    else b

-- What was read goes to the write position.
unfoldable pub store_bytes : List ℕ → ReadBuffer → ReadBuffer
unfolding put_bytes
store_bytes xs b =
    write_move (record b { buffer = put_bytes xs (index b.write_position) b.buffer }) (length xs)

abbrev pub is_more : Action → Bool
is_more Action.needs_more_read = true
is_more _ = false

abbrev pub same_count : Option ℕ → ℕ → Bool
same_count none n = false
same_count (some m) n = m == n

-- The loop of `http_read_handle` over `input`, whether `epollin` is set and the handler's call, with
-- `run`, `none` before the first call, and `to_end`, `none` for -1.
unfoldable pub read_loop :
    {W : Type 0}
    → (W → ReadBuffer)
    → (W → Bool)
    → (W → Option (Action × W))
    → ℕ
    → Option Action
    → Option ℕ
    → W
    → Option (Option Action × W)
read_loop input listening call zero run to_end w = none
read_loop input listening call (suc fuel) run to_end w = elim (listening w) [
  | false ↦ some (run, w)
  | true ↦ do
    r ← call w
    let left = read_remaining (input r.1)
    elim (is_more r.0 && not (left == 0) && not (same_count to_end left)) [
      | true ↦ read_loop input listening call fuel (some r.0) (some left) r.1
      | false ↦ some (some r.0, r.1)
    ]
]

abbrev pub goes_on : Action → Bool
goes_on Action.close_connection = false
goes_on Action.registered_write = false
goes_on _ = true

module _ {v : Env} (o : Outside v) where
  -- The first part of `http_read_handle`, the read of the socket: what it returns at once, or the
  -- number of bytes read.
  unfoldable pub receive : World v → Option ((Action ⊎ ℕ) × World v)
  unfolding rewind store_bytes
  receive w =
      let w1 = on_conn (λ c. record c { input = rewind c.input }) w in
      let room = write_to_end w1.conn.input in
      if room == 0 then some (inr 0, w1) else elim w.reads [
        | [] ↦ some (inl Action.needs_more_read, w1)
        | r ∷ rest ↦
            let w2 = record w1 { reads = rest } in
            elim r [
              | Received.closed ↦ some (inl Action.close_connection, w2)
              | Received.failed ↦ some (inl Action.close_connection, w2)
              | Received.again ↦ some (inl Action.needs_more_read, w2)
              | Received.bytes xs ↦
                  assert (not (length xs == 0) && leb (length xs) room)
                  >> some (
                    inr (length xs),
                    on_conn (λ c. record c { input = store_bytes xs c.input }) w2,
                  )
            ]
      ]

  -- Its end: a connection whose buffer is full and not read from is closed.
  unfoldable pub check_full : ℕ → Action → World v → Action × World v
  check_full num run w =
      if goes_on run && (num == 0) && eqb_ℤ (write_remaining w.conn.input) (pos 0)
      then (Action.close_connection, w)
      else (run, w)

  -- `http_read_handle`, with the call of a handler. The result is not set where no handler ran.
  unfoldable pub read_handle : (Handler → World v → Handled v) → World v → Handled v
  unfolding receive read_loop check_full
  read_handle call w = do
    r ← receive w
    elim r.0 [
      | inl a ↦ some (a, r.1)
      | inr num ↦ do
        s ←
            read_loop (λ x. x.conn.input) (λ x. x.conn.epollin) (λ x. call x.conn.handler x)
              (2 ^ 16 + 1) none none r.1
        run ← s.0
        some (check_full num run s.1)
    ]

  -- The call of a connection's handler.
  unfoldable pub call_handler : ℕ → Handler → World v → Handled v
  unfolding read_handle
  call_handler zero h w = none
  call_handler (suc depth) h w = elim h [
    | Handler.cache_handle_method ↦ cache_handle_method w
    | Handler.cache_handle_url ↦ cache_handle_url o w
    | Handler.cache_handle_httpversion ↦ cache_handle_httpversion o w
    | Handler.cache_handle_headers ↦ cache_handle_headers o w
    | Handler.cache_handle_headers_extract ↦ cache_handle_headers_extract o w
    | Handler.cache_handle_eolstats ↦ cache_handle_eolstats o w
    | Handler.cache_handle_request_body ↦ cache_handle_request_body o w
    | Handler.handle_eolwritetoend ↦ handle_eolwritetoend o w
    | Handler.discard_input ↦ discard_input o w
    | Handler.respond_expires ↦ respond_expires w
    | Handler.respond_contentlength ↦ respond_contentlength w
    | Handler.respond_responseend ↦ respond_responseend w
    | Handler.respond_contentbody ↦ respond_contentbody o (read_handle (call_handler depth)) w
    | Handler.respond_writeonly ↦ respond_writeonly o (read_handle (call_handler depth)) w
    | Handler.respond_reset_connection ↦
        respond_reset_connection o (read_handle (call_handler depth)) w
    | Handler.respond_stats ↦ respond_stats o w
    | Handler.respond_cleanupafterwrite ↦ respond_cleanupafterwrite o w
    | Handler.respond_listingentries ↦ respond_listingentries w
    | Handler.respond_listingtotal ↦ respond_listingtotal w
    | Handler.respond_listing_separator ↦ respond_listing_separator w
    | Handler.respond_listing ↦ respond_listing w
    | Handler.respond_close_connection ↦ some (Action.close_connection, w)
  ]

  -- The first part of `http_write_handle`, the write of stored output: `none` in the result if it
  -- failed. What is written must be within the buffer, and `write` takes no more than it is given.
  unfoldable pub send_output : List ℕ → World v → Option (Option (World v))
  send_output out w = elim o.send [
    | negsuc n ↦ some none
    | pos num ↦
        assert (leb w.conn.output_length (length out) && leb num w.conn.output_length)
        >> (let w1 = record w { sent = Sent.text (take num out) ∷ w.sent } in
            some (
              some (
                on_conn
                  (λ c.
                    if c.output_length == num
                    then record c { output_length = 0; output_buffer = none; output_free = false }
                    else record c { output_length = c.output_length - num })
                  w1)))
  ]

  -- Its second part: the handler, once there is nothing to write.
  unfoldable pub after_output : (Handler → World v → Handled v) → World v → Handled v
  after_output call w = elim w.conn.output_buffer [
    | some out ↦ some (Action.continue_processing, w)
    | none ↦ if w.conn.epollout then call w.conn.handler w else some (Action.continue_processing, w)
  ]

  -- `http_write_handle`, with the call of a handler
  unfoldable pub write_handle : (Handler → World v → Handled v) → World v → Handled v
  unfolding send_output after_output
  write_handle call w = elim w.conn.output_buffer [
    | none ↦ after_output call w
    | some out ↦ do
      r ← send_output out w
      elim r [ none ↦ some (Action.close_connection, w) | some w1 ↦ after_output call w1 ]
  ]

-- The depth of an event's calls.
abbrev pub event_depth : ℕ
event_depth = 2

-- `http_connection_handler`
unfoldable pub connection_handler : {v : Env} → World v → World v
connection_handler w = set_state 0 (set_handler Handler.cache_handle_method w)

-- The flags of an event: EPOLLIN, EPOLLOUT, EPOLLERR or EPOLLHUP, and EPOLLRDHUP.
pub record Event : Type 0 where
  pub readable : Bool
  pub writable : Bool
  pub gone : Bool
  pub half_closed : Bool

abbrev pub is_close : Action → Bool
is_close Action.close_connection = true
is_close _ = false

module _ {v : Env} (o : Outside v) where
  -- Whether the event's flag and what its handler returned call for closing.
  abbrev pub when : Bool → (World v → Handled v) → World v → Option (Bool × World v)
  when flag handle w = elim flag [
    | false ↦ some (false, w)
    | true ↦ do r ← handle w; some (is_close r.0, r.1)
  ]

  -- EPOLLRDHUP where the connection is not to be closed already.
  unfoldable pub half_close : Bool → Bool → World v → Option (Bool × World v)
  half_close flag closing w =
      if not closing && flag
      then (let w1 = on_conn (λ c. record c { epollrdhup = true }) w in
          if w1.conn.epollin then some (true, w1) else assert w1.conn.epollout >> some (false, w1))
      else some (closing, w)

  -- An event of a connection in `connection_event_loop`: whether the connection is removed then.
  unfoldable pub handle_event : Event → World v → Option (Bool × World v)
  unfolding half_close read_handle write_handle call_handler
  handle_event e w = do
    r ← when e.readable (read_handle o (call_handler o event_depth)) w
    s ← when e.writable (write_handle o (call_handler o event_depth)) r.1
    t ← half_close e.half_closed (e.gone || r.0 || s.0) s.1
    if t.0 then (do w1 ← cache_destroy o t.1; some (true, w1)) else some t
