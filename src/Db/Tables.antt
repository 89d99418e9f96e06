-- ===== src/Db/Tables.antt =====
-- The lookups of tables in src/core/db.cpp. Their loop runs on fuel, one round more than there are
-- tables; `none` is a fault, or the end of the fuel.
pub mod Probe
pub mod Names
pub mod Lost
use simple_cache.Base.{
  ℕ, zero, suc, ◌+◌, ◌%◌, ◌^◌, Bool, true, false, not, ◌||◌, Option, none, some, List, ◌==◌, pos,
  eqb_ℤ, ◌>>=◌, ◌>>◌, assert,
}
use simple_cache.ReadBuffer.{strncmp}
use simple_cache.Store.{Ptr}
use simple_cache.HashMap.{KHash, find}
use simple_cache.Db.{Env, Table, Db, allocate_at}
use simple_cache.Db.Refs.{table_incref, table_deref}

module _ {v : Env} where
  -- `table->key_length != length || strncmp(table->key, name, length) != 0`
  abbrev pub other_name : Table v → List ℕ → ℕ → Bool
  other_name tb name length =
      not (tb.key_length == length) || not (eqb_ℤ (strncmp tb.key name length) (pos 0))

  -- The loop over hashes: the last hash tried, and the table there, if there is one.
  unfoldable pub probe : ℕ → List ℕ → ℕ → ℕ → Db v → Option (ℕ × Option Ptr)
  probe zero name length h d = none
  probe (suc n) name length h d = elim (find v.kh d.tables h) [
    | none ↦ some (h, none)
    | some t ↦ do
      tb ← d.table_at t
      assert (tb.hash == h)
      elim (other_name tb name length) [
        | true ↦ probe n name length ((h + 1) % 2 ^ 32) d
        | false ↦ some (h, some t)
      ]
  ]

  abbrev pub probe_all : List ℕ → ℕ → Db v → Option (ℕ × Option Ptr)
  probe_all name length d = probe (v.kh.size d.tables + 1) name length (v.hash name length) d

  -- `db_table_get_read`
  unfoldable pub table_get_read : List ℕ → ℕ → Db v → Option (Option Ptr × Db v)
  table_get_read name length d = do
    r ← probe_all name length d
    elim r.1 [ none ↦ some (none, d) | some t ↦ table_incref t d >>= λ d1. some (some t, d1) ]

  abbrev pub new_table : List ℕ → ℕ → ℕ → Table v
  new_table name length h = record {
    hash = h;
    key = name;
    key_length = length % 2 ^ 16;
    cache_hash_set = some v.kh.init;
    refs = 1;
    deleted = false;
  }

  -- The database with a new table at the address `t`.
  abbrev pub add_table : Ptr → List ℕ → ℕ → ℕ → Db v → Db v
  add_table t name length h d = record d {
    table_at = allocate_at t (new_table name length h) d.table_at;
    tables = v.kh.put d.tables h t;
  }

  -- `db_table_get_write`, with the address that `malloc` returns
  unfoldable pub table_get_write : List ℕ → ℕ → Ptr → Db v → Option (Ptr × Db v)
  table_get_write name length fresh d = do
    r ← probe_all name length d
    elim r.1 [
      | none ↦ some (fresh, add_table fresh name length r.0 d)
      | some t ↦ table_incref t d >>= λ d1. some (t, d1)
    ]

  -- `db_table_close`
  abbrev pub table_close : Ptr → Db v → Option (Db v)
  table_close t = table_deref t false
