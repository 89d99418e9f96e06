-- ===== src/Monitor.antt =====
-- The lists of monitoring connections of src/core/http_parse_mon.cpp: those that are sent counts, and
-- those that have made no request yet. `none` is a fault: a bad pointer, an assertion that fails in a
-- build with DEBUG_BUILD, or the end of the fuel of a loop. Of these assertions two are left out: that
-- `close` succeeds, which depends on what other threads open, and that the schedules are in order,
-- which only a build with DEBUG_MONITORING tests.
pub mod Chain
pub mod Rounds
pub mod Check
pub mod Add
pub mod Pending
pub mod Stalled
pub mod Requests
pub mod Strings
use simple_cache.Base.{
  ℕ, zero, suc, ◌+◌, ◌%◌, ◌^◌, Bool, true, false, not, ◌&&◌, ◌||◌, Option, none, some, List, [],
  ◌∷◌, ltb, ◌==◌, if◌then◌else◌, is_null, eq_ptr, ◌>>=◌, ◌>>◌, assert,
}
use mathlib.Core.Option
use simple_cache.Store.{Ptr}
use simple_cache.Db.{free_at}
use simple_cache.Monitor.Strings.{monitoring_string}

-- `struct timeval`
pub record Time : Type 0 where
  pub sec : ℕ
  pub usec : ℕ

-- `timercmp(a, b, >)`
abbrev pub later : Time → Time → Bool
later a b = if a.sec == b.sec then ltb b.usec a.usec else ltb b.sec a.sec

-- The part of `struct scache_connection` that a monitoring connection uses: `output_buffer` up to its
-- length, or `none` for NULL.
pub record Monitored : Type 0 where
  pub prev : Option Ptr
  pub next : Option Ptr
  pub scheduled : Time
  pub current : ℕ
  pub is_writing : Bool
  pub output : Option (List ℕ)
  pub sock : ℕ
  pub epollin : Bool
  pub epollout : Bool

abbrev pub Monitoreds : Type 0
Monitoreds = Ptr → Option Monitored

-- The memory of connections, the ends of the two lists, and the descriptors that were closed, latest
-- first.
pub record Monitors : Type 0 where
  pub conns : Monitoreds
  pub mon_head : Option Ptr
  pub mon_tail : Option Ptr
  pub pending_head : Option Ptr
  pub pending_tail : Option Ptr
  pub closed : List ℕ

unfoldable pub change : Ptr → (Monitored → Monitored) → Monitoreds → Monitoreds
change p f h q = if p == q then Option.map f (h q) else h q

-- A write to fields of `*p`.
abbrev pub write_conn : Ptr → (Monitored → Monitored) → Monitors → Option Monitors
write_conn p f s = do _ ← s.conns p; some (record s { conns = change p f s.conns })

-- A write to fields of `*p` where `p` is not NULL, after an assertion about it.
abbrev pub write_some :
    Option Ptr → (Monitored → Bool) → (Monitored → Monitored) → Monitors → Option Monitors
write_some none c f s = some s
write_some (some p) c f s = do x ← s.conns p; assert (c x); write_conn p f s

abbrev pub set_prev : Option Ptr → Monitored → Monitored
set_prev q x = record x { prev = q }

abbrev pub set_next : Option Ptr → Monitored → Monitored
set_next q x = record x { next = q }

-- `memset` of the monitoring fields to 0, and the schedule set
abbrev pub cleared : Time → Monitored → Monitored
cleared now x = record x { prev = none; next = none; scheduled = now; current = 0 }

-- `monitoring_pending_add`
unfoldable pub monitoring_pending_add : Ptr → Time → Monitors → Option Monitors
monitoring_pending_add p now s = do
  s1 ← write_conn p (cleared now) s
  elim s1.pending_tail [
    | none ↦
        assert (is_null s1.pending_head)
        >> some (record s1 { pending_head = some p; pending_tail = some p })
    | some t ↦ do
      h ← s1.pending_head
      x ← s1.conns h
      assert (is_null x.prev)
      s2 ← write_conn h (set_prev (some p)) s1
      s3 ← write_conn p (set_next (some h)) s2
      some (record s3 { pending_head = some p })
  ]

-- The neighbours of a connection come to point to each other.
unfoldable pub bridge : Ptr → Monitors → Option Monitors
bridge p s = do
  x ← s.conns p
  s1 ← write_some x.next (λ t. eq_ptr t.prev (some p)) (set_prev x.prev) s
  y ← s1.conns p
  write_some y.prev (λ t. eq_ptr t.next (some p)) (set_next y.next) s1

-- The first part of `monitoring_add`, once the fields are cleared: out of the pending list.
unfoldable pub leave_pending : Ptr → Monitors → Option Monitors
leave_pending p s = do
  x ← s.conns p
  s1 ←
      if eq_ptr s.pending_head (some p)
      then assert (is_null x.prev) >> some (record s { pending_head = x.next })
      else some s
  if eq_ptr s1.pending_tail (some p)
      then assert (is_null x.next)
        >> assert (not (is_null s1.pending_head) || is_null x.prev)
        >> some (record s1 { pending_tail = x.prev })
      else if not (is_null s1.pending_tail)
      then bridge p s1
      else some s1

-- The second part: to the head of the list.
unfoldable pub push_head : Ptr → Monitors → Option Monitors
push_head p s = elim s.mon_tail [
  | none ↦ assert (is_null s.mon_head) >> some (record s { mon_head = some p; mon_tail = some p })
  | some t ↦ do
    h ← s.mon_head
    x ← s.conns h
    assert (is_null x.prev)
    s1 ← write_conn h (set_prev (some p)) s
    s2 ← write_conn p (set_next (some h)) s1
    some (record s2 { mon_head = some p })
]

-- `monitoring_add`
unfoldable pub monitoring_add : Ptr → Time → Monitors → Option Monitors
monitoring_add p now s = do
  s1 ← write_conn p (cleared now) s
  s2 ← leave_pending p s1
  push_head p s2

-- The ends of the list that a connection is taken from, by its `is_writing`; `true` where it was the
-- only one. Where a pending connection is the tail, the tail of the other list is set.
unfoldable pub leave_pending_ends : Ptr → Monitored → Monitors → Option (Bool × Monitors)
leave_pending_ends p x s = do
  s1 ←
      if eq_ptr s.pending_head (some p)
      then assert (is_null x.prev) >> some (record s { pending_head = x.next })
      else some s
  if eq_ptr s1.pending_tail (some p)
      then assert (is_null x.next)
        >> assert (not (is_null s1.pending_head) || is_null s1.pending_tail)
        >> some (is_null s1.pending_head, record s1 { mon_tail = x.prev })
      else some (false, s1)

unfoldable pub leave_ends : Ptr → Monitored → Monitors → Option (Bool × Monitors)
leave_ends p x s = do
  s1 ←
      if eq_ptr s.mon_head (some p)
      then assert (is_null x.prev) >> some (record s { mon_head = x.next })
      else some s
  if eq_ptr s1.mon_tail (some p)
      then assert (is_null x.next)
        >> assert (not (is_null s1.mon_head) || is_null x.prev)
        >> some (is_null s1.mon_head, record s1 { mon_tail = x.prev })
      else some (false, s1)

-- `monitoring_destroy`
unfoldable pub monitoring_destroy : Ptr → Monitors → Option Monitors
monitoring_destroy p s = do
  x ← s.conns p
  r ← if x.is_writing then leave_ends p x s else leave_pending_ends p x s
  if r.0 then some r.1 else bridge p r.1

-- `close_socket`
abbrev pub close_socket : ℕ → Monitors → Monitors
close_socket fd s = record s { closed = fd ∷ s.closed }

-- `connection_remove`, less the set of connections, which is in the module Connections
unfoldable pub remove_connection : Ptr → Monitors → Option Monitors
remove_connection p s = do
  x ← s.conns p
  some (close_socket x.sock (record s { conns = free_at p s.conns }))

-- `http_cleanup`, `connection_remove` and `close_socket` in a row, as `monitoring_check` calls them
unfoldable pub disconnect : Ptr → Monitors → Option Monitors
unfolding remove_connection
disconnect p s = do
  x ← s.conns p
  s1 ← monitoring_destroy p s
  s2 ← remove_connection p s1
  some (close_socket x.sock s2)

-- `MONITORING_DEFAULT_INTERVAL`
abbrev pub default_interval : ℕ
default_interval = 5

-- The connection with its next count to write, in `default_interval` seconds again.
abbrev pub notified : Time → Monitored → Monitored
notified now x = record x {
  next = none;
  output = some (monitoring_string x.current);
  current = (x.current + 1) % 2 ^ 16;
  scheduled = record { sec = now.sec + default_interval; usec = now.usec };
  epollout = true;
  epollin = false;
}

-- The head, which was taken off the list, goes to its end.
unfoldable pub move_to_end : Ptr → Monitors → Option Monitors
move_to_end p s =
    if not (eq_ptr s.mon_tail (some p))
    then (do
      t ← s.mon_tail
      s1 ← write_conn t (set_next (some p)) s
      s2 ← write_conn p (set_prev (some t)) s1
      some (record s2 { mon_tail = some p }))
    else (do
      s1 ← write_conn p (set_prev none) s
      some (record s1 { mon_head = some p; mon_tail = some p }))

-- The head moves on to its successor.
unfoldable pub pop_head : Option Ptr → Monitors → Option Monitors
pop_head next s = write_some next (λ x. true) (set_prev none) (record s { mon_head = next })

-- The body of the first loop of `monitoring_check` for the head, whose time has come.
unfoldable pub check_one : Ptr → Monitored → Time → Monitors → Option Monitors
check_one p x now s = do
  assert (not (eq_ptr x.next (some p)))
  s1 ← pop_head x.next s
  elim x.output [
    | some bytes ↦ disconnect p s1
    | none ↦ do s2 ← move_to_end p s1; write_conn p (notified now) s2
  ]

unfoldable pub check_mons : ℕ → Time → Monitors → Option Monitors
check_mons zero now s = none
check_mons (suc fuel) now s = elim s.mon_head [
  | none ↦ some s
  | some p ↦ do
    x ← s.conns p
    assert (is_null x.prev)
    elim (later x.scheduled now) [
      | true ↦ some s
      | false ↦ do s1 ← check_one p x now s; check_mons fuel now s1
    ]
]

-- The second loop, over the pending connections.
unfoldable pub check_pending : ℕ → Time → Monitors → Option Monitors
check_pending zero now s = none
check_pending (suc fuel) now s = elim s.pending_tail [
  | none ↦ some s
  | some p ↦ do
    x ← s.conns p
    elim (later x.scheduled now) [
      | true ↦ some s
      | false ↦ do
        s1 ← disconnect p s
        assert (not (eq_ptr s1.pending_tail (some p)))
        check_pending fuel now s1
    ]
]

-- `monitoring_check`
unfoldable pub monitoring_check : ℕ → Time → Monitors → Option Monitors
monitoring_check fuel now s = do s1 ← check_mons fuel now s; check_pending fuel now s1
