-- ===== src/Examples/Stages.antt =====
-- The stages of requests and responses at concrete states of a connection.
use simple_cache.Base.{
  ℕ, ◌*◌, ◌^◌, ◌≡◌, refl, arith, true, false, Option, none, some, List, [], ◌∷◌, negsuc, pos,
  length,
}
use simple_cache.ReadBuffer.{ReadBuffer, read_len}
use simple_cache.ReadBuffer.Bounds.{IsValid}
use simple_cache.Db.Tables.{table_get_read, probe}
use simple_cache.HashMap.Slots.{slots}
use simple_cache.Http.{Action, Handler, Sent, World, set_state, on_conn}
use simple_cache.Http.Templates.{codes}
use simple_cache.Http.Newlines.{handle_eolwritetoend, cache_handle_eolstats}
use simple_cache.Http.Register.{stats_after_eol}
use simple_cache.Http.Newlines.Eol.{answered, handle_eolwritetoend_lem, stats_answered, stats_early}
use simple_cache.Http.Method.{cache_handle_method}
use simple_cache.Http.Method.Refine.{stage_result, cache_handle_method_lem}
use simple_cache.Http.Url.{cache_handle_url}
use simple_cache.Http.Url.Space.{at_url, after_space, cache_handle_url-overruns}
use simple_cache.Http.Body.{cache_handle_request_body}
use simple_cache.Http.Body.Progress.{IsRange, body_stored, cache_handle_request_body_lem}
use simple_cache.Http.Events.{put_bytes, write_handle}
use simple_cache.Http.Events.Send.{sent_all, write_handle_resends}
use simple_cache.Examples.Database.{world}
use simple_cache.Examples.Requests.{served, outside, idle}

-- A buffer whose unread bytes are a text, from the start of the array on.
abbrev holding : List ℕ → ReadBuffer
holding xs = record {
  buffer = put_bytes xs 0 (λ i. 0);
  read_position = 0;
  write_position = length xs;
}

abbrev received : List ℕ → World world
received xs = record {
  conn = record idle { input = holding xs };
  db = served;
  reads = [];
  stored = [];
  sent = [];
}

abbrev get_line : World world
get_line = received (codes "GET /")

get_line-IsValid : IsValid get_line.conn.input
unfolding read_len
get_line-IsValid = omega arith

cache_handle_method_lem_example :
    cache_handle_method get_line ≡ some (stage_result (codes "GET") get_line)
unfolding read_len put_bytes
cache_handle_method_lem_example =
    cache_handle_method_lem get_line (codes "GET") (codes "/") get_line-IsValid (omega arith) refl
      refl (ground arith) (omega arith) (ground arith)

-- The rest of a line.
abbrev rest_of_line : World world
rest_of_line = received (codes "ab\nc")

rest_of_line-IsValid : IsValid rest_of_line.conn.input
unfolding read_len
rest_of_line-IsValid = omega arith

handle_eolwritetoend_lem_example :
    handle_eolwritetoend outside (set_state 1 rest_of_line) ≡ some (answered true 2 rest_of_line)
unfolding read_len put_bytes
handle_eolwritetoend_lem_example =
    (handle_eolwritetoend_lem outside rest_of_line rest_of_line-IsValid (omega arith)).1
      (codes "ab") (codes "c") (ground arith) refl

-- A response that the socket takes in two parts.
abbrev half_sent : World world
half_sent =
    on_conn
      (λ c. record c {
        output_buffer = some (codes "OK\r\n");
        output_length = 4;
        epollout = true;
        epollin = false;
      })
      (received [])

abbrev idle_call : Handler → World world → Option (Action × World world)
idle_call h w = some (Action.continue_processing, w)

write_handle_resends_example :
    (u : World world) × (write_handle (record outside { send = pos 1 }) idle_call half_sent
      ≡ some (Action.continue_processing, u))
    × (write_handle (record outside { send = pos 3 }) idle_call u
        ≡ some (Action.continue_processing, sent_all (codes "OK\r\n") u))
    × ((sent_all (codes "OK\r\n") u).sent ≡ Sent.text (codes "OK\r") ∷ Sent.text (codes "O") ∷ [])
write_handle_resends_example =
    write_handle_resends idle_call (record outside { send = pos 1 })
      (record outside { send = pos 3 }) 1 (codes "OK\r\n") half_sent refl (omega arith)
      (omega arith) refl refl refl

-- A body of which two bytes of five have come.
abbrev body_come : World world
body_come =
    on_conn
      (λ c. record c {
        is_writing = true;
        target = record { entry = some 3; position = 0; end_position = 5; fd = pos 9 };
      })
      (received (codes "hi"))

body_come-IsValid : IsValid body_come.conn.input
unfolding read_len
body_come-IsValid = omega arith

body_come-IsRange : IsRange body_come.conn.target
body_come-IsRange = record { ordered = omega arith; word = omega arith; short = omega arith }

cache_handle_request_body_lem_example :
    cache_handle_request_body outside body_come
    ≡ some (Action.continue_processing, body_stored 2 body_come)
unfolding read_len
cache_handle_request_body_lem_example =
    (cache_handle_request_body_lem outside body_come body_come-IsValid (omega arith)
        body_come-IsRange (omega arith) refl refl refl).0
      (omega arith)

abbrev listing_all : World world
listing_all =
    on_conn
      (λ c. record c {
        target = record { entry = some 7; position = 2 * 2 ^ 32; end_position = 0; fd = negsuc 0 };
      })
      (received [])

-- Newlines round the end of the array.
abbrev newlines : ReadBuffer
newlines = record { buffer = λ i. b'\n'; read_position = 16383; write_position = 16387 }

newlines-IsValid : IsValid newlines
unfolding read_len
newlines-IsValid = omega arith

-- A request for a table that there is not, so far as it has come.
abbrev table_url : World world
table_url = received (codes "/x ")

table_url-IsValid : IsValid table_url.conn.input
unfolding read_len
table_url-IsValid = omega arith

cache_handle_url-overruns_example :
    (cache_handle_url outside (at_url table_url)
      ≡ some (Action.needs_more_read, after_space (codes "x") none served table_url))
    × (read_len (after_space (codes "x") none served table_url).conn.input ≡ 65535)
unfolding read_len put_bytes slots table_get_read probe
cache_handle_url-overruns_example =
    cache_handle_url-overruns outside table_url (codes "x") none served table_url-IsValid
      (omega arith) refl refl (ground arith) (ground arith) refl

-- The rest of a request for the statistics.
abbrev stats_line : World world
stats_line = received (codes "HTTP/1.1\r\n\r\n")

stats_line-IsValid : IsValid stats_line.conn.input
unfolding read_len
stats_line-IsValid = omega arith

stats_early_example :
    cache_handle_eolstats outside (stats_after_eol stats_line).1 ≡ some (stats_answered stats_line)
unfolding read_len put_bytes
stats_early_example =
    stats_early outside stats_line b'H' (codes "TTP/1.1\r\n\r\n") stats_line-IsValid (omega arith)
      refl (λ e. omega (arith, e)) refl
