-- ===== src/Http/Listing.antt =====
-- The listing of a table's keys in src/core/http_respond.cpp.
pub mod Places
use simple_cache.Base.{
  ℕ, zero, suc, ◌+◌, ◌-◌, ◌%◌, ◌^◌, Option, none, some, ◌++◌, ltb, ◌==◌, if◌then◌else◌, ◌>>=◌, ◌>>◌,
  assert,
}
use simple_cache.Store.{Ptr}
use simple_cache.HashMap.{KHash}
use simple_cache.Db.{Env}
use simple_cache.Http.{
  Action, Handler, World, Handled, on_conn, set_handler, on_target, start, limit, set_start,
  set_limit,
}
use simple_cache.Http.Methods.{http_get, level_table, request_is}
use simple_cache.Http.Templates.{codes}
use simple_cache.Base.Decimal.{signed_decimal, int_of}
use simple_cache.Http.Respond.{copy_to_outputbuffer, writable}

-- The range that `http_respond_listing` first limits to the places of the table, as the start and
-- the limit, of 32 bits each.
unfoldable pub clamp : ℕ → ℕ → ℕ → ℕ × ℕ
clamp end s l =
    if ltb end s
    then (end, 0)
    else if ltb end ((l + s) % 2 ^ 32)
    then (s, (end + 2 ^ 32 - (s + 1) % 2 ^ 32) % 2 ^ 32)
    else (s, l)

-- `kh_exist` and `kh_val`. A place that the table does not have is read outside its memory.
unfoldable pub place_entry : (kh : KHash) → kh.Map → ℕ → Option (Option Ptr)
place_entry kh m i = if ltb i (kh.end m) then some (kh.value m i) else none

-- Its loop, from the place `i` down, with the limit: the entry it ends at and what is left of the
-- limit, or no entry.
unfoldable pub find_place : (kh : KHash) → kh.Map → ℕ → ℕ → Option (Option (Ptr × ℕ))
unfolding place_entry
find_place kh m i zero = do
  x ← place_entry kh m i
  some (elim x [ none ↦ none | some p ↦ some (p, 0) ])
find_place kh m zero (suc k) = do
  x ← place_entry kh m 0
  elim x [ none ↦ none | some p ↦ some (some (p, k + 1)) ]
find_place kh m (suc i) (suc k) = do
  x ← place_entry kh m (i + 1)
  elim x [ none ↦ find_place kh m i k | some p ↦ some (some (p, k + 1)) ]

module _ {v : Env} where
  -- The table of a connection, and its `cache_hash_set`.
  abbrev pub cells_of : World v → Option v.kh.Map
  cells_of w = do t ← w.conn.target.entry; tb ← w.db.table_at t; tb.cache_hash_set

  -- `http_respond_listingentries`: `kh_size`, as an `int`
  unfoldable pub respond_listingentries : World v → Handled v
  unfolding copy_to_outputbuffer
  respond_listingentries w =
      if request_is w.conn.method (http_get + level_table)
      then (do
        m ← cells_of w
        some (
          Action.continue_processing,
          set_handler Handler.respond_listingtotal (
              copy_to_outputbuffer
                (codes "X-Entries: " ++ signed_decimal (int_of (v.kh.size m)) ++ codes "\r\n") w),
        ))
      else some (Action.continue_processing, set_handler Handler.respond_listingtotal w)

  -- `http_respond_listingtotal`: `kh_n_buckets`, which is `kh_end`
  unfoldable pub respond_listingtotal : World v → Handled v
  unfolding copy_to_outputbuffer
  respond_listingtotal w =
      if request_is w.conn.method (http_get + level_table)
      then (do
        m ← cells_of w
        some (
          Action.continue_processing,
          set_handler Handler.respond_listing_separator (
              copy_to_outputbuffer
                (codes "X-Total: " ++ signed_decimal (int_of (v.kh.end m)) ++ codes "\r\n") w),
        ))
      else some (Action.continue_processing, set_handler Handler.respond_listing_separator w)

  -- `http_respond_listing_separator`
  unfoldable pub respond_listing_separator : World v → Handled v
  respond_listing_separator w = do
    assert (writable w)
    some (
      Action.continue_processing,
      set_handler Handler.respond_listing
          (on_conn (λ c. record c { output_buffer = some (codes "\r\n"); output_length = 2 }) w),
    )

  -- The key of the entry as the output. With the last one the connection is closed.
  unfoldable pub list_entry : Ptr → ℕ → World v → Handled v
  list_entry p left w = do
    e ← w.db.store.entries p
    let w1 =
        on_target (set_limit (left - 1))
          (on_conn (λ c. record c { output_buffer = some e.key; output_length = e.key_length }) w)
    some (
      Action.continue_processing,
      set_handler
          (if left == 0
            then Handler.respond_close_connection
            else Handler.respond_listing_separator)
          w1,
    )

  -- `http_respond_listing`
  unfoldable pub respond_listing : World v → Handled v
  unfolding clamp find_place list_entry
  respond_listing w = do
    m ← cells_of w
    let range = clamp (v.kh.end m) (start w.conn.target) (limit w.conn.target)
    let w1 = on_target (λ t. set_limit range.1 (set_start range.0 t)) w
    if range.1 == 0 then some (Action.close_connection, w1) else (do
      r ← find_place v.kh m ((range.1 + range.0) % 2 ^ 32) range.1
      elim r [
        | none ↦ some (Action.close_connection, on_target (set_limit 0) w1)
        | some x ↦ list_entry x.0 x.1 w1
      ])
