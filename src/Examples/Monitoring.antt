-- ===== src/Examples/Monitoring.antt =====
-- Requests of monitoring connections.
use simple_cache.Base.{ℕ, ◌≡◌, refl, arith, true, false, none, some, List, [], ◌∷◌, length}
use simple_cache.ReadBuffer.{read_len}
use simple_cache.ReadBuffer.Bounds.{IsValid}
use simple_cache.Http.Events.{put_bytes}
use simple_cache.Http.Templates.{codes}
use simple_cache.Monitor.Requests.{
  MonTemplate, MonHandler, MonRequest, mon_handle_method, mon_handle_url, mon_eolwrite_initial,
}
use simple_cache.Monitor.Requests.Blank.{awaiting, mon_answered, mon_eolwrite_initial_lem}
use simple_cache.Monitor.Requests.Methods.{mon_stage_result, mon_handle_method_lem}
use simple_cache.Monitor.Requests.Overrun.{not_found, mon_handle_url-overruns}

-- A template is one byte.
abbrev short_template : MonTemplate → List ℕ
short_template t = b'x' ∷ []

abbrev received : MonHandler → List ℕ → MonRequest
received h xs = record {
  input = record {
    buffer = put_bytes xs 0 (λ i. 0);
    read_position = 0;
    write_position = length xs;
  };
  output = none;
  handler = h;
  state = 0;
  method = 0;
  epollin = true;
  epollout = false;
}

abbrev head_line : MonRequest
head_line = received MonHandler.at_method (codes "HEAD /conn")

head_line-IsValid : IsValid head_line.input
unfolding read_len
head_line-IsValid = omega arith

mon_handle_method_lem_example :
    mon_handle_method short_template (codes "ok") true head_line
    ≡ some (mon_stage_result short_template (codes "ok") true (codes "HEAD") head_line)
unfolding read_len put_bytes
mon_handle_method_lem_example =
    mon_handle_method_lem short_template (codes "ok") true head_line (codes "HEAD") (codes "/conn")
      head_line-IsValid (omega arith) refl refl (ground arith) (omega arith) (ground arith)

abbrev unknown_url : MonRequest
unknown_url = received MonHandler.at_url (codes "/a/b ")

unknown_url-IsValid : IsValid unknown_url.input
unfolding read_len
unknown_url-IsValid = omega arith

mon_handle_url-overruns_example :
    (mon_handle_url short_template (codes "ok") true unknown_url
      ≡ some (not_found short_template (codes "ok") true 5 unknown_url))
    × (read_len (not_found short_template (codes "ok") true 5 unknown_url).1.input ≡ 65535)
unfolding read_len put_bytes
mon_handle_url-overruns_example =
    mon_handle_url-overruns short_template (codes "ok") true unknown_url (codes "a/b")
      unknown_url-IsValid (omega arith) refl refl (omega arith) (omega arith) (ground arith)

abbrev rest_of_head : MonRequest
rest_of_head = received MonHandler.at_eolwrite_initial (codes "TTP/1.1\r\nHost: a\r\n\r\n/")

rest_of_head-IsValid : IsValid rest_of_head.input
unfolding read_len
rest_of_head-IsValid = omega arith

mon_eolwrite_initial_lem_example :
    mon_eolwrite_initial short_template (codes "ok") true (awaiting 0 rest_of_head)
    ≡ some (mon_answered short_template (codes "ok") true true 19 rest_of_head)
unfolding read_len put_bytes
mon_eolwrite_initial_lem_example =
    mon_eolwrite_initial_lem short_template (codes "ok") true rest_of_head (codes "TTP/1.1")
      (codes "Host: a" ∷ []) (codes "/") rest_of_head-IsValid (omega arith) refl (ground arith)
      (ground arith) (ground arith)
