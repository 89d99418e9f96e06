-- ===== src/Http/Templates.antt =====
-- `http_templates` of src/core/http.h. `http_templates_init` stores the length of each.
use Prim.Native.Char.{code}
use Prim.Native.String.{String}
use simple_cache.Base.{ℕ, List, [], ◌∷◌}

abbrev pub codes : String → List ℕ
codes String.[] = []
codes (String.◌∷◌ c s) = code c ∷ codes s

pub data Template : Type 0 where
  headers200 full404 full200_ok newline full_invalid_method full200_deleted : Template
  headers200_conclose full_invalid_content_length bulk_ok full_long_method : Template
  full_unknown_method full_request_too_large full_unknown_request : Template

unfoldable pub template : Template → List ℕ
template headers200 = codes "HTTP/1.1 200 OK\r\nConnection: Keep-Alive\r\n"
template full404 =
    codes
      "HTTP/1.1 404 Not Found\r\nConnection: Keep-Alive\r\nContent-Length: 15\r\n\r\nKey not Found\r\n"
template full200_ok =
    codes "HTTP/1.1 200 OK\r\nConnection: Keep-Alive\r\nContent-Length: 4\r\n\r\nOK\r\n"
template newline = codes "\r\n"
template full_invalid_method =
    codes
      "HTTP/1.1 400 Bad Request\r\nConnection: Close\r\nContent-Length: 16\r\n\r\nInvalid Method\r\n"
template full200_deleted =
    codes "HTTP/1.1 200 OK\r\nConnection: Keep-Alive\r\nContent-Length: 9\r\n\r\nDELETED\r\n"
template headers200_conclose = codes "HTTP/1.1 200 OK\r\nConnection: Close\r\n"
template full_invalid_content_length =
    codes
      "HTTP/1.1 400 Bad Request\r\nConnection: Close\r\nContent-Length: 24\r\n\r\nInvalid Content-Length\r\n"
template bulk_ok =
    codes "HTTP/1.1 200 OK\r\nConnection: Keep-Alive\r\nContent-Length: 9\r\n\r\nBULK OK\r\n"
template full_long_method =
    codes
      "HTTP/1.1 400 Bad Request\r\nConnection: Close\r\nContent-Length: 17\r\n\r\nMethod too Long\r\n"
template full_unknown_method =
    codes
      "HTTP/1.1 400 Bad Request\r\nConnection: Close\r\nContent-Length: 16\r\n\r\nUnknown Method\r\n"
template full_request_too_large =
    codes
      "HTTP/1.1 400 Bad Request\r\nConnection: Close\r\nContent-Length: 19\r\n\r\nRequest too large\r\n"
template full_unknown_request =
    codes
      "HTTP/1.1 400 Bad Request\r\nConnection: Close\r\nContent-Length: 17\r\n\r\nUnknown Request\r\n"
