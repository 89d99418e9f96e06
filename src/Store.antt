-- ===== src/Store.antt =====
-- `struct cache_entry` of src/core/db_structures.h, the heap of entries with the two ends of the
-- LRU list of src/core/db.h, and the list's operations in db.cpp. An entry's address is a number,
-- `none` in the heap is memory that is not allocated, and `none` as a result is a fault: an access
-- to such memory, or an assertion that fails in a build with DEBUG_BUILD.
pub mod Frame
pub mod Insert
pub mod Links
pub mod Lru
pub mod Unlink
use simple_cache.Base.{
  ℕ, Bool, true, false, not, Option, none, some, List, ◌==◌, if◌then◌else◌, ℤ, ◌>>=◌, ◌>>◌, assert,
  eq_ptr, is_null,
}
use mathlib.Core.Option

abbrev pub Ptr : Type 0
Ptr = ℕ

-- `struct cache_entry`, the fields of DEBUG_BUILD included but for `lru_found`.
pub record Entry : Type 0 where
  pub table : Option Ptr
  pub hash : ℕ
  pub key : List ℕ
  pub key_length : ℕ
  pub writing : Bool
  pub deleted : Bool
  pub refs : ℕ
  pub data_length : ℕ
  pub block : ℤ
  pub expires : ℕ
  pub lru_next : Option Ptr
  pub lru_prev : Option Ptr
  pub it : ℕ
  pub lru_removed : Bool

abbrev pub Heap : Type 0
Heap = Ptr → Option Entry

pub record Store : Type 0 where
  pub entries : Heap
  pub lru_head : Option Ptr
  pub lru_tail : Option Ptr

-- The heap with the entry at `p`, if there is one, changed by `f`.
unfoldable pub modify_at : Heap → Ptr → (Entry → Entry) → Heap
modify_at h p f q = if p == q then Option.map f (h q) else h q

abbrev pub load : Store → Ptr → Option Entry
load s p = s.entries p

-- A write to fields of `*p`.
abbrev pub modify : Ptr → (Entry → Entry) → Store → Option Store
modify p f s = do _ ← load s p; some (record s { entries = modify_at s.entries p f })

-- The first half of `db_lru_remove_node`: the predecessor, or the head, skips the entry.
unfoldable pub unlink_prev : Ptr → Store → Option Store
unlink_prev p s = do
  e ← load s p
  elim e.lru_prev [
    | some q ↦
        assert (not (eq_ptr s.lru_head (some p)))
        >> modify q (λ r. record r { lru_next = e.lru_next }) s
    | none ↦ assert (eq_ptr s.lru_head (some p)) >> some (record s { lru_head = e.lru_next })
  ]

-- The second half: the successor, or the tail.
unfoldable pub unlink_next : Ptr → Store → Option Store
unlink_next p s = do
  e ← load s p
  elim e.lru_next [
    | some q ↦
        assert (not (eq_ptr s.lru_tail (some p)))
        >> modify q (λ r. record r { lru_prev = e.lru_prev }) s
    | none ↦ assert (eq_ptr s.lru_tail (some p)) >> some (record s { lru_tail = e.lru_prev })
  ]

abbrev pub detached : Entry → Entry
detached e = record e { lru_next = none; lru_prev = none; lru_removed = true }

-- `db_lru_remove_node`
unfoldable pub lru_remove_node : Ptr → Store → Option Store
lru_remove_node p s = do
  e ← load s p
  assert (not e.lru_removed)
  s1 ← unlink_prev p s
  s2 ← unlink_next p s1
  modify p detached s2

-- The old tail, if there is one, comes to point to the new one.
unfoldable pub link_tail : Ptr → Store → Option Store
link_tail p s = elim s.lru_tail [
  | none ↦ some s
  | some q ↦ do
    t ← load s q
    assert (is_null t.lru_next)
    modify q (λ r. record r { lru_next = some p }) s
]

-- `db_lru_insert`
unfoldable pub lru_insert : Ptr → Store → Option Store
lru_insert p s = do
  e ← load s p
  assert e.lru_removed
  assert (not (eq_ptr (some p) s.lru_tail))
  assert (is_null e.lru_next)
  assert (is_null e.lru_prev)
  s1 ← modify p (λ r. record r { lru_prev = s.lru_tail }) s
  s2 ← link_tail p s1
  s3 ← modify p (λ r. record r { lru_next = none }) s2
  modify p (λ r. record r { lru_removed = false })
      (record s3 {
        lru_tail = some p;
        lru_head = if is_null s3.lru_head then some p else s3.lru_head;
      })

-- `db_lru_hit`, without the check of the whole database that DEBUG_BUILD adds
unfoldable pub lru_hit : Ptr → Store → Option Store
lru_hit p s = do e ← load s p; assert (not e.lru_removed); s1 ← lru_remove_node p s; lru_insert p s1
