-- ===== src/Http.antt =====
-- The state of the HTTP server for one connection to the cache: `struct scache_connection` and its
-- unions of src/core/connection_structures.h, with what a handler changes besides. `none` as a
-- result is a fault: an access to memory that is not allocated or not initialised, or an assertion
-- that fails in a build with DEBUG_BUILD.
pub mod Methods
pub mod Templates
pub mod Iterate
pub mod Register
pub mod Newlines
pub mod Url
pub mod Method
pub mod Headers
pub mod Extract
pub mod Body
pub mod Respond
pub mod Listing
pub mod Events
use simple_cache.Base.{ℕ, ◌+◌, ◌*◌, ◌/◌, ◌%◌, ◌^◌, Bool, Option, none, some, List, ◌∷◌, ℤ, ◌>>=◌}
use simple_cache.ReadBuffer.{ReadBuffer, read_move}
use simple_cache.Store.{Ptr}
use simple_cache.Db.{Env, Db}
use simple_cache.Db.Targets.{CacheTarget}

-- `state_action`
pub data Action : Type 0 where
  close_connection registered_write needs_more_read continue_processing : Action

-- What a connection's `handler` may point to, by the name of the function.
pub data Handler : Type 0 where
  cache_handle_method cache_handle_url cache_handle_httpversion cache_handle_headers : Handler
  cache_handle_headers_extract cache_handle_eolstats cache_handle_request_body : Handler
  handle_eolwritetoend discard_input : Handler
  respond_expires respond_contentlength respond_responseend respond_contentbody : Handler
  respond_writeonly respond_reset_connection respond_stats respond_cleanupafterwrite : Handler
  respond_listingentries respond_listingtotal respond_listing_separator respond_listing : Handler
  respond_close_connection : Handler

-- `union utarget`, by the words of its larger member: `table_target.table` shares the word of
-- `cache_target.entry`, and `position` is shared by `start` (its low half) and `limit`.
abbrev pub Target : Type 0
Target = CacheTarget

abbrev pub start : Target → ℕ
start t = t.position % 2 ^ 32

abbrev pub limit : Target → ℕ
limit t = t.position / 2 ^ 32

abbrev pub set_start : ℕ → Target → Target
set_start n t = record t { position = n + (t.position / 2 ^ 32) * 2 ^ 32 }

abbrev pub set_limit : ℕ → Target → Target
set_limit n t = record t { position = t.position % 2 ^ 32 + n * 2 ^ 32 }

-- `struct scache_connection` of type `cache_connection`. `output_buffer` is the text that it points
-- to, and `output_free` says whether `output_buffer_free` is set.
pub record Conn : Type 0 where
  pub input : ReadBuffer
  pub output_buffer : Option (List ℕ)
  pub output_free : Bool
  pub output_length : ℕ
  pub handler : Handler
  pub state : ℕ
  pub method : ℕ
  pub is_writing : Bool
  pub epollin : Bool
  pub epollout : Bool
  pub epollrdhup : Bool
  pub target : Target

-- The outcome of a `read` of the socket; `again` is EAGAIN or EWOULDBLOCK.
pub data Received : Type 0 where
  bytes : List ℕ → Received
  closed again failed : Received

-- What was sent to the client: bytes, or `count` bytes of a file from a position on.
pub data Sent : Type 0 where
  text : List ℕ → Sent
  file : ℤ → ℕ → ℕ → Sent

-- A connection with the database, the outcomes of the reads to come, the writes to files (the
-- descriptor, the position and the bytes), and what was sent; both of these latest first.
pub record World (v : Env) : Type 0 where
  pub conn : Conn
  pub db : Db v
  pub reads : List Received
  pub stored : List (ℤ × ℕ × List ℕ)
  pub sent : List Sent

-- The outcome of `sendfile64`: a count (0 at the end of the file), EINTR or EWOULDBLOCK, or another
-- error.
pub data Transfer : Type 0 where
  moved : ℕ → Transfer
  interrupted broken : Transfer

-- What else is decided outside while one event is handled: whether `epoll_ctl` succeeds, the
-- addresses that `malloc` returns for a table and an entry, the result of each `open` of a cache
-- file, the block file's descriptor, whether `lseek64` succeeds, the results of `write` to a file
-- and to the socket and of `sendfile64`, `connection_stop_soon`, the program's version and
-- revision, and the collection `db_lru_gc`.
pub record Outside (v : Env) : Type 0 where
  pub epoll : Bool
  pub fresh_table : Ptr
  pub fresh_entry : Ptr
  pub opened : ℕ → ℤ
  pub blockfile : ℤ
  pub seeks : Bool
  pub write : ℤ
  pub send : ℤ
  pub sendfile : Transfer
  pub stop_soon : Bool
  pub version : List ℕ
  pub revision : List ℕ
  pub lru_gc : Db v → Option (Db v)

-- The result of a handler, and of an inner function of `RBUF_ITERATE`: the action and the value of
-- `n` after its `n++`.
abbrev pub Handled : Env → Type 0
Handled v = Option (Action × World v)

abbrev pub Iterated : Env → Type 0
Iterated v = Option (Action × ℕ × World v)

module _ {v : Env} where
  abbrev pub on_conn : (Conn → Conn) → World v → World v
  on_conn f w = record w { conn = f w.conn }

  abbrev pub set_handler : Handler → World v → World v
  set_handler h = on_conn λ c. record c { handler = h }

  abbrev pub set_state : ℕ → World v → World v
  set_state n = on_conn λ c. record c { state = n }

  abbrev pub set_method : ℕ → World v → World v
  set_method n = on_conn λ c. record c { method = n }

  abbrev pub on_target : (Target → Target) → World v → World v
  on_target f = on_conn λ c. record c { target = f c.target }

  -- `RBUF_READMOVE(connection->input, n)`
  abbrev pub move_input : ℕ → World v → World v
  move_input n = on_conn λ c. record c { input = read_move c.input n }

  -- A step on the database alone.
  abbrev pub on_db : (Db v → Option (Db v)) → World v → Option (World v)
  on_db f w = do d ← f w.db; some (record w { db = d })

  -- `return a` at the end of an inner function that leaves `n` alone
  abbrev pub next_n : ℕ → Handled v → Iterated v
  next_n n r = do x ← r; some (x.0, n + 1, x.1)
