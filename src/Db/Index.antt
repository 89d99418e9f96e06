-- ===== src/Db/Index.antt =====
-- `db_index_flush` of src/core/db.cpp, which writes the index of tables and entries. What `write`
-- returns is a function of how many calls there were before and how many bytes it is given: `none`
-- is -1. A result `none` is a fault, or the end of the fuel of `full_write`.
pub mod Text
pub mod Flush
use simple_cache.Base.{
  ℕ, zero, suc, ◌+◌, ◌-◌, Bool, true, false, not, ◌||◌, Option, none, some, List, [], ◌∷◌, ◌++◌,
  leb, if◌then◌else◌, pos, negsuc, length, take, drop, ◌>>=◌, ◌>>◌, assert,
}
use simple_cache.Base.Decimal.{decimal, signed_decimal}
use simple_cache.Store.{Ptr, Entry}
use simple_cache.Db.{Env, Table, Db}

-- The file that is being written, and how often `write` was called.
pub record Output : Type 0 where
  pub text : List ℕ
  pub calls : ℕ

abbrev pub Writes : Type 0
Writes = ℕ → ℕ → Option ℕ

abbrev pub written : List ℕ → Output → Output
written bytes o = record { text = o.text ++ bytes; calls = o.calls + 1 }

-- `full_write`: whether all was written.
unfoldable pub full_write : ℕ → Writes → List ℕ → Output → Option (Bool × Output)
full_write zero w bytes o = none
full_write (suc fuel) w bytes o = elim (w o.calls (length bytes)) [
  | none ↦ some (false, record o { calls = o.calls + 1 })
  | some n ↦ assert (leb n (length bytes)) >> elim (drop n bytes) [
    | [] ↦ some (true, written (take n bytes) o)
    | c ∷ cs ↦ full_write fuel w (c ∷ cs) (written (take n bytes) o)
  ]
]

-- A step that is left out when one before it failed: `goto close_fd`.
abbrev pub and_write :
    Option (Bool × Output) → (Output → Option (Bool × Output)) → Option (Bool × Output)
and_write m k = m >>= λ r. if r.0 then k r.1 else some r

-- A round of `full_write` more than there are bytes.
abbrev pub put_all : Writes → List ℕ → Output → Option (Bool × Output)
put_all w bytes = full_write (suc (length bytes)) w bytes

-- A row is written in three parts: the table's key and the entry's key are not copied.
unfoldable pub put_row : Writes → List ℕ → List ℕ → Output → Option (Bool × Output)
put_row w head key o =
    and_write (put_all w head o) λ o1. and_write (put_all w key o1) (put_all w (10 ∷ []))

-- `%d:%u:%lu:%u:`, before `rest`
abbrev pub entry_fields : Entry → List ℕ → List ℕ
entry_fields e rest =
    signed_decimal e.block
    ++ b':'
      ∷ (decimal e.data_length
          ++ b':' ∷ (decimal e.expires ++ b':' ∷ (decimal e.it ++ b':' ∷ rest)))

-- `%c:`, and the fields
unfoldable pub entry_head : Entry → List ℕ
entry_head e = elim e.block [ pos n ↦ b'b' | negsuc n ↦ b'e' ] ∷ b':' ∷ entry_fields e []

-- The two files of the index, each if it exists.
pub record Files : Type 0 where
  pub temp : Option (List ℕ)
  pub save : Option (List ℕ)

-- What happens after the rows: the old index is removed, and the new one takes its name if the
-- renaming succeeds; else both are gone.
abbrev pub replace_index : Bool → List ℕ → Files → Files
replace_index renames text f = record { temp = none; save = if renames then some text else none }

module _ {v : Env} where
  -- The loop over the places of a table from `k` on, `count` of them.
  unfoldable pub flush_entries : Writes → ℕ → ℕ → v.kh.Map → Db v → Output → Option (Bool × Output)
  flush_entries w zero k m d o = some (true, o)
  flush_entries w (suc count) k m d o = elim (v.kh.value m k) [
    | none ↦ flush_entries w count (k + 1) m d o
    | some p ↦ do
      e ← d.store.entries p
      elim (e.writing || e.deleted) [
        | true ↦ flush_entries w count (k + 1) m d o
        | false ↦
            and_write (put_row w (entry_head e) (take e.key_length e.key) o)
              (flush_entries w count (k + 1) m d)
      ]
  ]

  unfoldable pub flush_table : Writes → Table v → Db v → Output → Option (Bool × Output)
  flush_table w tb d o =
      and_write (put_row w (b't' ∷ b':' ∷ []) (take tb.key_length tb.key) o)
        λ o1. (do m ← tb.cache_hash_set; flush_entries w (v.kh.end m) 0 m d o1)

  -- The loop over the places of the tables.
  unfoldable pub flush_tables : Writes → ℕ → ℕ → Db v → Output → Option (Bool × Output)
  flush_tables w zero k d o = some (true, o)
  flush_tables w (suc count) k d o = elim (v.kh.value d.tables k) [
    | none ↦ flush_tables w count (k + 1) d o
    | some t ↦ do
      tb ← d.table_at t
      elim tb.deleted [
        | true ↦ flush_tables w count (k + 1) d o
        | false ↦ and_write (flush_table w tb d o) (flush_tables w count (k + 1) d)
      ]
  ]

  -- `db_index_flush` in the process that writes: whether the file can be opened and renamed are
  -- arguments.
  unfoldable pub index_flush : Bool → Bool → Writes → Db v → Files → Option Files
  index_flush opens renames w d f = elim opens [
    | false ↦ some f
    | true ↦ do
      r ← flush_tables w (v.kh.end d.tables) 0 d (record { text = []; calls = 0 })
      some (if r.0 then replace_index renames r.1.text f else record f { temp = some r.1.text })
  ]
