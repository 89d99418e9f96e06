-- ===== src/Http/Methods.antt =====
-- The request types of src/core/http.h: a method and a level, as bits.
pub mod Bits
use Prim.Native.Nat.{bit_and, bit_or}
use simple_cache.Base.{ℕ, ◌-◌, Bool, ◌&&◌, ◌||◌, ◌==◌}

abbrev pub http_admin : ℕ
http_admin = 0x200

abbrev pub http_get : ℕ
http_get = 0x100

abbrev pub http_purge : ℕ
http_purge = 0x80

abbrev pub http_put : ℕ
http_put = 0x40

abbrev pub http_delete : ℕ
http_delete = 0x20

abbrev pub http_head : ℕ
http_head = 0x10

abbrev pub level_key : ℕ
level_key = 4

abbrev pub level_table : ℕ
level_table = 2

-- `REQUEST_IS`
unfoldable pub request_is : ℕ → ℕ → Bool
request_is type request =
    ((bit_and request 0x0ff0 == 0)
      || (bit_and type (bit_and 0x0ff0 request) == bit_and request 0x0ff0))
    && ((bit_and request 0x000f == 0)
        || (bit_and type (bit_and 0x000f request) == bit_and request 0x000f))

-- `method |= level` and `method &= ~level`
abbrev pub add_level : ℕ → ℕ → ℕ
add_level level m = bit_or m level

abbrev pub drop_level : ℕ → ℕ → ℕ
drop_level level m = m - bit_and m level
