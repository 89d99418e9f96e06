-- ===== src/Connections.antt =====
-- The queue between the threads that accept and the event loop, and the set of connections, of
-- src/core/connection.cpp. Each operation of the queue holds its lock, so the threads take turns.
-- `none` is a fault: a bad pointer or a failed assertion.
pub mod Queue
pub mod Members
use simple_cache.Base.{
  ℕ, Bool, true, false, not, Option, none, some, List, [], ◌∷◌, ◌==◌, if◌then◌else◌, is_null, ◌>>=◌,
  ◌>>◌, assert, mem, ltb, ◌||◌,
}
use mathlib.Core.Option
use simple_cache.Store.{Ptr}
use simple_cache.Db.{allocate_at, free_at}

-- `connection_ctype`
pub data Ctype : Type 0 where
  cache_listener mon_listener cache_connection mon_connection : Ctype

-- `struct connections_queued`
pub record Queued : Type 0 where
  pub client_sock : ℕ
  pub client_type : Ctype
  pub next : Option Ptr

-- The memory of queue items, with `cq_head` and `cq_tail`.
pub record AcceptQueue : Type 0 where
  pub items : Ptr → Option Queued
  pub head : Option Ptr
  pub tail : Option Ptr

-- The type of the connections that a thread accepts.
unfoldable pub accepted_type : Ctype → Option Ctype
accepted_type Ctype.cache_listener = some Ctype.cache_connection
accepted_type Ctype.mon_listener = some Ctype.mon_connection
accepted_type _ = none

abbrev pub linked : Ptr → Queued → Queued
linked p x = record x { next = some p }

-- The write to `cq_tail->next`.
unfoldable pub set_next : Ptr → Ptr → (Ptr → Option Queued) → Ptr → Option Queued
set_next t p h q = if t == q then Option.map (linked p) (h q) else h q

-- The insertion of an accepted socket, with the address that `malloc` returned.
unfoldable pub enqueue : Ptr → ℕ → Ctype → AcceptQueue → Option AcceptQueue
enqueue p sock type s =
    let item : Queued = record { client_sock = sock; client_type = type; next = none } in
    let items = allocate_at p item s.items in
    elim s.tail [
      | none ↦
          assert (is_null s.head) >> some (record { items = items; head = some p; tail = some p })
      | some t ↦ do
        _ ← items t
        some (record { items = set_next t p items; head = s.head; tail = some p })
    ]

-- The removal of the first item, which is freed: its socket and type, if there is one.
unfoldable pub take_item : Option Ptr → AcceptQueue → Option (Option (ℕ × Ctype) × AcceptQueue)
take_item none s = some (none, s)
take_item (some p) s = do
  x ← s.items p
  some (
    some (x.client_sock, x.client_type),
    record {
      items = free_at p s.items;
      head = x.next;
      tail = if is_null x.next then none else s.tail;
    },
  )

abbrev pub dequeue : AcceptQueue → Option (Option (ℕ × Ctype) × AcceptQueue)
dequeue s = take_item s.head s

-- What the threads do, one after another: an accepted socket is put in the queue, with the address that
-- `malloc` returned, and the event loop takes one.
pub data QueueOp : Type 0 where
  put_op : Ptr → ℕ → Ctype → QueueOp
  take_op : QueueOp

-- A run of the queue, and what it gave to the event loop.
unfoldable pub run_ops :
    List QueueOp → AcceptQueue → Option (List (Option (ℕ × Ctype)) × AcceptQueue)
run_ops [] s = some ([], s)
run_ops (op ∷ ops) s = elim op [
  | put_op p sock type ↦ do s1 ← enqueue p sock type s; run_ops ops s1
  | take_op ↦ do r ← dequeue s; rest ← run_ops ops r.1; some (r.0 ∷ rest.0, rest.1)
]

-- The part of `struct scache_connection` that `connection_add` and `connection_remove` use: the socket,
-- `none` for -1, and the descriptor of the target.
pub record Slot : Type 0 where
  pub client_sock : Option ℕ
  pub ltype : Ctype
  pub target_fd : Option ℕ
  pub epollin : Bool
  pub epollout : Bool

-- The memory of connections, the set of those in use, and the descriptors that were closed, latest
-- first.
pub record Pool : Type 0 where
  pub slots : Ptr → Option Slot
  pub connections : List Ptr
  pub closed : List ℕ

abbrev is_cache_listener : Ctype → Bool
is_cache_listener Ctype.cache_listener = true
is_cache_listener _ = false

-- A new connection, whose memory is set to 0.
abbrev pub new_slot : ℕ → Ctype → Bool → Slot
new_slot fd type epollin = record {
  client_sock = some fd;
  ltype = type;
  target_fd = if is_cache_listener type then none else some 0;
  epollin = epollin;
  epollout = false;
}

-- `std::set::insert`
abbrev pub insert : Ptr → List Ptr → List Ptr
insert p ps = if mem p ps then ps else p ∷ ps

-- `connection_add`, with the address that `malloc` returned
unfoldable pub connection_add : Ptr → ℕ → Ctype → Pool → Pool
connection_add p fd type s = record s {
  slots = allocate_at p (new_slot fd type false) s.slots;
  connections = insert p s.connections;
}

-- The set less a pointer.
unfoldable pub erase : Ptr → List Ptr → List Ptr
erase p [] = []
erase p (q ∷ qs) = let rest = erase p qs in if q == p then rest else q ∷ rest

-- `connection_remove`
unfoldable pub connection_remove : Ptr → Pool → Option Pool
connection_remove p s = do
  x ← s.slots p
  fd ← x.client_sock
  some (record {
    slots = free_at p s.slots;
    connections = erase p s.connections;
    closed = fd ∷ s.closed;
  })

-- The creation of a connection for a socket that was taken from the queue: whether epoll can be told of
-- it is an argument. Where it can, the request handler runs next.
unfoldable pub create_connection : Bool → Ptr → ℕ → Ctype → Pool → Option (Bool × Pool)
create_connection epoll p sock type s =
    let s1 = connection_add p sock type s in
    elim epoll [
      | false ↦ some (false, record s1 { closed = sock ∷ s1.closed })
      | true ↦ do
        x ← s1.slots p
        some (true, record s1 { slots = allocate_at p (record x { epollin = true }) s1.slots })
    ]
