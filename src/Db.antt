-- ===== src/Db.antt =====
-- The state of src/core/db.cpp: `struct db_details` of src/core/db.h and `struct db_table` of
-- src/core/db_structures.h. `none` as a result is a fault: an access to memory that is not
-- allocated, a null pointer, or an assertion that fails in a build with DEBUG_BUILD.
pub mod Refs
pub mod Delete
pub mod Lookup
pub mod RoundTrip
pub mod Tables
pub mod Allocate
pub mod Targets
pub mod Collect
pub mod Index
pub mod Load
use simple_cache.Base.{
  ℕ, ◌+◌, ◌%◌, ◌^◌, Bool, true, Option, none, some, List, ◌∷◌, ltb, ◌==◌, if◌then◌else◌, ◌>>=◌,
}
use mathlib.Core.Option
use simple_cache.Store.{Ptr, Entry, Heap, Store, modify}
use simple_cache.Blocks.{Blocks, block_length}
use simple_cache.HashMap.{KHash}

-- What the database uses of other code: the hash table, `MurmurHash3_x86_32` of a string and its
-- length, the time, and whether `ftruncate` succeeds.
pub record Env : Type 1 where
  pub kh : KHash
  pub hash : List ℕ → ℕ → ℕ
  pub now : ℕ
  pub truncates : Bool

-- `struct db_table`; `cache_hash_set` is `none` once it is destroyed.
pub record Table (v : Env) : Type 0 where
  pub hash : ℕ
  pub key : List ℕ
  pub key_length : ℕ
  pub cache_hash_set : Option v.kh.Map
  pub refs : ℕ
  pub deleted : Bool

-- `struct db_details` less its paths and descriptors, with `nextit`, the memory of entries and
-- tables, and the files that were unlinked, latest first, each by the three numbers that its path
-- is made of.
pub record Db (v : Env) : Type 0 where
  pub store : Store
  pub blocks : Blocks
  pub table_at : Ptr → Option (Table v)
  pub tables : v.kh.Map
  pub size_bytes : ℕ
  pub keys : ℕ
  pub inserts : ℕ
  pub gets : ℕ
  pub deletes : ℕ
  pub operations : ℕ
  pub table_gc : ℕ
  pub next_it : ℕ
  pub unlinked : List (ℕ × ℕ × ℕ)

-- `IS_SINGLE_FILE`
abbrev pub single_file : Entry → Bool
single_file e = ltb block_length e.data_length

-- `x++` on `w` bits
abbrev pub incr : ℕ → ℕ → ℕ
incr w x = (x + 1) % 2 ^ w

-- Memory with what `malloc` gave at `p`, and less what was freed there.
abbrev pub allocate_at {ℓ} : {A : Type ℓ} → Ptr → A → (Ptr → Option A) → Ptr → Option A
allocate_at p a h q = if p == q then some a else h q

abbrev pub free_at {ℓ} : {A : Type ℓ} → Ptr → (Ptr → Option A) → Ptr → Option A
free_at p h q = if p == q then none else h q

module _ {v : Env} where
  abbrev pub on_store : (Store → Option Store) → Db v → Option (Db v)
  on_store f d = do s ← f d.store; some (record d { store = s })

  -- A write to fields of the entry at `p`, and of the table at `t`.
  abbrev pub modify_entry : Ptr → (Entry → Entry) → Db v → Option (Db v)
  modify_entry p f = on_store (modify p f)

  abbrev pub modify_table : Ptr → (Table v → Table v) → Db v → Option (Db v)
  modify_table t f d = do
    tb ← d.table_at t
    some (record d { table_at = allocate_at t (f tb) d.table_at })

  -- `kh_del(entry, table->cache_hash_set, k)`
  abbrev pub del_slot : Ptr → ℕ → Db v → Option (Db v)
  del_slot t k d = do
    tb ← d.table_at t
    m ← tb.cache_hash_set
    modify_table t (λ r. record r { cache_hash_set = some (v.kh.del m k) }) d

  -- `get_key_path` and `unlink`: `db_entry_delete`, and the body of `db_entry_cleanup`
  unfoldable pub entry_delete : Ptr → Db v → Option (Db v)
  entry_delete p d = do
    e ← d.store.entries p
    t ← e.table
    tb ← d.table_at t
    some (record d { unlinked = (tb.hash, e.hash, e.it) ∷ d.unlinked })

  -- `db_entry_cleanup`
  unfoldable pub entry_cleanup : Ptr → Db v → Option (Db v)
  entry_cleanup p d = do e ← d.store.entries p; if single_file e then entry_delete p d else some d
