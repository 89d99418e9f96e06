-- ===== src/Examples/Requests.antt =====
-- Requests to the database of Examples/Database.
use simple_cache.Base.{
  ℕ, ◌≡◌, refl, Bool, true, false, Option, none, some, List, [], ◌∷◌, negsuc, pos, ◌==◌,
  if◌then◌else◌,
}
use mathlib.Core.Option
use simple_cache.ReadBuffer.{
  write_to_end, read_to_end, write_move, read_remaining, read_len, cmpn, memory, strncmp, bytes_at,
  read_move, copyn, write_remaining,
}
use simple_cache.Store.{
  modify_at, lru_hit, lru_remove_node, unlink_prev, unlink_next, lru_insert, link_tail,
}
use simple_cache.Db.Tables.{table_get_read, probe}
use simple_cache.Db.Refs.{table_incref, entry_incref}
use simple_cache.Db.Lookup.{entry_get_read, read_found}
use simple_cache.Db.Targets.{target_setup}
use simple_cache.Http.Method.{cache_handle_method}
use simple_cache.Http.Newlines.{skip_over_newlines, handle_eolwritetoend}
use simple_cache.Http.Iterate.{iterate}
use simple_cache.Http.Url.{cache_handle_url, cache_handle_httpversion, url_table}
use simple_cache.Http.Headers.{cache_handle_headers}
use simple_cache.Http.Methods.{request_is}
use simple_cache.Http.Register.{write_response}
use simple_cache.Db.{Db}
use simple_cache.Http.{Handler, Received, Transfer, Conn, World, Outside}
use simple_cache.Http.Templates.{codes}
use simple_cache.Http.Events.{Event, handle_event}
use simple_cache.HashMap.Slots.{slots}
use simple_cache.Examples.Database.{world, db, table_of, cells}

-- The database, with its table under the hash of its name.
abbrev pub served : Db world
served = record db {
  table_at = λ t. if t == 7 then some (record (table_of cells false 2) { hash = b't' }) else none;
  tables = slots.put slots.init b't' 7;
}

abbrev pub outside : Outside world
outside = record {
  epoll = true;
  fresh_table = 20;
  fresh_entry = 21;
  opened = λ n. pos 9;
  blockfile = pos 5;
  seeks = true;
  write = pos 2;
  send = pos 0;
  sendfile = Transfer.moved 10;
  stop_soon = false;
  version = codes "1";
  revision = codes "2";
  lru_gc = λ d. some d;
}

abbrev pub idle : Conn
idle = record {
  input = record { buffer = λ i. 0; read_position = 0; write_position = 0 };
  output_buffer = none;
  output_free = false;
  output_length = 0;
  handler = Handler.cache_handle_method;
  state = 0;
  method = 0;
  is_writing = false;
  epollin = true;
  epollout = false;
  epollrdhup = false;
  target = record { entry = none; position = 0; end_position = 0; fd = negsuc 0 };
}

abbrev pub asking : List ℕ → World world
asking xs = record {
  conn = idle;
  db = served;
  reads = Received.bytes xs ∷ [];
  stored = [];
  sent = [];
}

abbrev pub readable : Event
readable = record { readable = true; writable = false; gone = false; half_closed = false }

abbrev after_get : Option (Bool × World world)
after_get = handle_event outside readable (asking (codes "GET /t/a HTTP/1.1\r\nHost: x\r\n\r\n"))

get_found : Option.map (λ r. r.1.conn.handler) after_get ≡ some Handler.respond_expires
unfolding handle_event write_to_end cache_handle_method skip_over_newlines read_to_end write_move
    iterate read_remaining read_len cmpn memory strncmp bytes_at read_move cache_handle_url slots
    handle_eolwritetoend copyn request_is table_get_read probe table_incref modify_at
    cache_handle_httpversion cache_handle_headers entry_get_read lru_hit entry_incref target_setup
    write_response write_remaining read_found lru_remove_node unlink_prev unlink_next lru_insert
    link_tail url_table
get_found = refl
