-- ===== src/Db/Load.antt =====
-- `db_load_from_save` and `db_open` of src/core/db.cpp. `none` is a fault: a failed assertion, a word
-- that does not fit the buffer it is read into, or the end of the process by PFATAL.
pub mod Free
pub mod Opened
pub mod Rows
pub mod Restart
pub mod Entries
pub mod Leak
pub mod Table
pub mod Restored
pub mod Scans
use simple_cache.Base.{
  ℕ, zero, suc, ◌+◌, ◌-◌, ◌*◌, ◌/◌, ◌%◌, ◌^◌, Bool, true, false, not, ◌&&◌, ◌||◌, Option, none,
  some, List, [], ◌∷◌, ltb, leb, ◌==◌, if◌then◌else◌, pos, negsuc, ◌>>=◌, ◌>>◌, assert, mem, length,
}
use simple_cache.Base.Decimal.{int_of}
use simple_cache.Base.Scan.{scan_word, scan_unsigned, scan_signed, scan_colon}
use simple_cache.Store.{Ptr, Entry, lru_insert}
use simple_cache.Blocks.{Blocks, block_free, block_length}
use simple_cache.Db.{Env, Db, incr, allocate_at, free_at, on_store, modify_table}
use simple_cache.Db.Refs.{entry_incref, table_incref, table_deref}
use simple_cache.Db.Tables.{table_get_write}

-- The rows that `getline` reads, each with its newline if it has one.
abbrev push : ℕ → List (List ℕ) → List (List ℕ)
push c [] = (c ∷ []) ∷ []
push c (r ∷ rs) = (c ∷ r) ∷ rs

unfoldable pub rows : List ℕ → List (List ℕ)
rows [] = []
rows (c ∷ cs) = let rest = rows cs in if c == 10 then (c ∷ []) ∷ rest else push c rest

-- What `sscanf` fills: the block as it stands in 32 bits, the numbers and the key.
pub record Scanned : Type 0 where
  pub block : ℕ
  pub data_length : ℕ
  pub expires : ℕ
  pub it : ℕ
  pub key : List ℕ

-- A word and its NUL go into `buffer2`.
unfoldable pub fit_buffer : Option (List ℕ) → Option (Option (List ℕ))
fit_buffer none = some none
fit_buffer (some w) = if ltb (length w) 2048 then some (some w) else none

-- `sscanf(bp, "t:%s", buffer2)`, behind the `t:`
abbrev pub scan_table : List ℕ → Option (Option (List ℕ))
scan_table t = fit_buffer (scan_word t)

-- `sscanf(bp + 1, ":%d:%u:%u:%u:%s", …)` before its `%s`, behind the first `:`
unfoldable pub scan_numbers : List ℕ → Option (Scanned × List ℕ)
scan_numbers t0 = do
  d1 ← scan_signed t0
  t1 ← scan_colon d1.1
  u2 ← scan_unsigned t1
  t2 ← scan_colon u2.1
  u3 ← scan_unsigned t2
  t3 ← scan_colon u3.1
  u4 ← scan_unsigned t3
  t4 ← scan_colon u4.1
  let s : Scanned = record { block = d1.0; data_length = u2.0; expires = u3.0; it = u4.0; key = [] }
  some (s, t4)

unfoldable pub scan_entry : List ℕ → Option (Option Scanned)
scan_entry t = elim (scan_numbers t) [
  | none ↦ some none
  | some x ↦ elim (fit_buffer (scan_word x.1)) [
    | none ↦ none
    | some none ↦ some none
    | some (some w) ↦ some (some (record x.0 { key = w }))
  ]
]

-- `db_entry_new` and the fields that `db_load_from_save_entry` sets.
abbrev pub loaded_entry : Ptr → ℕ → Scanned → Entry
loaded_entry t h s = record {
  table = some t;
  hash = h;
  key = s.key;
  key_length = length s.key % 2 ^ 14;
  writing = false;
  deleted = false;
  refs = 0;
  data_length = s.data_length;
  block = int_of s.block;
  expires = s.expires;
  lru_next = none;
  lru_prev = none;
  it = s.it % 2 ^ 16;
  lru_removed = true;
}

-- What `malloc` returns, by the number of calls before, and whether the file of an entry exists, by
-- the numbers that its path is made of.
pub record Disk : Type 0 where
  pub fresh : ℕ → Ptr
  pub access : ℕ × ℕ × ℕ → Bool

-- The variables of the loop over rows: the table, the blocks that are marked in the bitset, the
-- calls of `malloc`, the database.
pub record Loading (v : Env) : Type 0 where
  pub table : Option Ptr
  pub marked : List ℕ
  pub mallocs : ℕ
  pub db : Db v

-- The loop that frees each block whose bit is not set; `count` is the number of blocks at its start.
unfoldable pub free_unmarked : Bool → List ℕ → ℕ → ℕ → Blocks → Option Blocks
free_unmarked ok marked zero i b = some b
free_unmarked ok marked (suc count) i b = elim (ltb i b.blocks_exist) [
  | false ↦ some b
  | true ↦ elim (mem i marked) [
    | true ↦ free_unmarked ok marked count (i + 1) b
    | false ↦ do b1 ← block_free ok i b; free_unmarked ok marked count (i + 1) b1
  ]
]

-- The marks with one more.
abbrev pub mark_block : Option ℕ → List ℕ → List ℕ
mark_block none ns = ns
mark_block (some n) ns = n ∷ ns

-- The branch of `db_open` that blanks the database: a long file is cut to `BLOCK_MAX_LOAD` blocks, the
-- rest of a last block is cut off, and all blocks are freed. A failed `ftruncate` ends the process.
abbrev pub block_max_load : ℕ
block_max_load = 8192

unfoldable pub cut_long : Bool → ℕ → Blocks → Option (ℕ × Blocks)
cut_long ok size b =
    if ltb (block_max_load * block_length) size
    then assert ok
      >> some (
        block_max_load * block_length,
        record b { blocks_exist = block_max_load; file_length = block_max_load * block_length },
      )
    else some (size, b)

unfoldable pub cut_rest : Bool → ℕ → Blocks → Option (ℕ × Blocks)
cut_rest ok size b =
    let whole = (size / block_length) * block_length in
    if size % block_length == 0
    then some (size, b)
    else assert ok >> some (whole, record b { file_length = whole })

-- The loop that frees the blocks from `i` on, `count` of them.
unfoldable pub free_all : Bool → ℕ → ℕ → Blocks → Option Blocks
free_all ok zero i b = some b
free_all ok (suc count) i b = do b1 ← block_free ok i b; free_all ok count (i + 1) b1

unfoldable pub open_blank : Bool → ℕ → Blocks → Option Blocks
open_blank ok size b = do
  r ← cut_long ok size b
  s ← cut_rest ok r.0 r.1
  b1 ← free_all ok (s.0 / block_length) 0 s.1
  some (record b1 { blocks_free = b1.blocks_exist })

module _ {v : Env} where
  -- `db_load_from_save_insert`
  unfoldable pub load_insert : Ptr → Ptr → Db v → Option (Db v)
  load_insert t p d = do
    tb ← d.table_at t
    m ← tb.cache_hash_set
    let d1 = record d { keys = incr 64 d.keys }
    d2 ← if v.kh.size m == 0 then table_incref t d1 else some d1
    tb2 ← d2.table_at t
    assert (leb 2 tb2.refs || (leb 1 tb2.refs && tb2.deleted))
    e ← d2.store.entries p
    d3 ← modify_table t (λ r. record r { cache_hash_set = some (v.kh.put m e.hash p) }) d2
    d4 ← entry_incref p false d3
    e4 ← d4.store.entries p
    assert (not e4.deleted)
    some (record d4 { size_bytes = (d4.size_bytes + e4.data_length) % 2 ^ 64 })

  -- The entry as `db_load_from_save_entry` leaves it in memory at `p`.
  abbrev pub with_loaded : Ptr → Entry → Db v → Db v
  with_loaded p e d = record d {
    store = record d.store { entries = allocate_at p e d.store.entries };
    next_it = incr 16 d.next_it;
  }

  abbrev pub without_loaded : Ptr → Db v → Db v
  without_loaded p d = record d { store = record d.store { entries = free_at p d.store.entries } }

  -- An entry that was read, after `db_load_from_save_entry`: it is freed where its file or block
  -- does not exist.
  unfoldable pub keep_entry : Disk → Ptr → Ptr → Entry → Db v → Option (Option ℕ × Db v)
  keep_entry disk t p e d = elim e.block [
    | negsuc n ↦ do
      tb ← d.table_at t
      elim (disk.access (tb.hash, e.hash, e.it)) [
        | false ↦ some (none, without_loaded p d)
        | true ↦ do d1 ← load_insert t p d; d2 ← on_store (lru_insert p) d1; some (none, d2)
      ]
    | pos n ↦ elim (ltb n d.blocks.blocks_exist) [
      | false ↦ some (none, without_loaded p d)
      | true ↦ do d1 ← load_insert t p d; d2 ← on_store (lru_insert p) d1; some (some n, d2)
    ]
  ]

  unfoldable pub load_entry : Disk → Ptr → Scanned → Loading v → Option (Loading v)
  load_entry disk t s l = do
    tb ← l.db.table_at t
    assert (leb 1 tb.refs)
    let p = disk.fresh l.mallocs
    let e = loaded_entry t (v.hash s.key (length s.key)) s
    r ← keep_entry disk t p e (with_loaded p e l.db)
    some (record l { marked = mark_block r.0 l.marked; mallocs = l.mallocs + 1; db = r.1 })

  -- The table of the rows before is given up, and deleted if it has no entries.
  abbrev pub leave_table : Option Ptr → Db v → Option (Db v)
  leave_table none d = some d
  leave_table (some t) d = table_deref t true d

  unfoldable pub load_table : Disk → List ℕ → Loading v → Option (Loading v)
  load_table disk name l = do
    d1 ← leave_table l.table l.db
    r ← table_get_write name (length name) (disk.fresh l.mallocs) d1
    some (record l { table = some r.0; mallocs = l.mallocs + 1; db = r.1 })

  -- A row of an entry, which is of no use before the row of a table.
  unfoldable pub load_line : Disk → Option Ptr → List ℕ → Loading v → Option (Loading v)
  load_line disk none text l = some l
  load_line disk (some t) text l = do
    s ← scan_entry text
    elim s [ none ↦ some l | some x ↦ load_entry disk t x l ]

  -- The `switch` on the first byte, for the text behind the `:`. Rows that begin with another byte
  -- than these have no effect.
  unfoldable pub load_kind : Disk → ℕ → List ℕ → Loading v → Option (Loading v)
  load_kind disk c text l =
      if c == b't'
      then (do w ← scan_table text; elim w [ none ↦ some l | some name ↦ load_table disk name l ])
      else if (c == b'b') || (c == b'e')
      then load_line disk l.table text l
      else some l

  -- The body of the loop: rows of two bytes at most, or without a `:` in the second place, are
  -- skipped.
  unfoldable pub load_row : Disk → List ℕ → Loading v → Option (Loading v)
  load_row disk (c ∷ x ∷ y ∷ cs) l = if x == b':' then load_kind disk c (y ∷ cs) l else some l
  load_row disk _ l = some l

  unfoldable pub load_rows : Disk → List (List ℕ) → Loading v → Option (Loading v)
  load_rows disk [] l = some l
  load_rows disk (r ∷ rs) l = do l1 ← load_row disk r l; load_rows disk rs l1

  -- `db_load_from_save` of an index that can be opened.
  unfoldable pub load_from_save : Disk → List ℕ → Db v → Option (Db v)
  load_from_save disk text d = do
    l ← load_rows disk (rows text) (record { table = none; marked = []; mallocs = 0; db = d })
    b ← free_unmarked v.truncates l.marked l.db.blocks.blocks_exist 0 l.db.blocks
    leave_table l.table (record l.db { blocks = b })

  -- What `db_open` sets before it loads, for a block file of the size; the entries in memory, the
  -- tables and `nextit` stay.
  unfoldable pub open_reset : ℕ → Db v → Db v
  open_reset size d = record d {
    store = record { entries = d.store.entries; lru_head = none; lru_tail = none };
    blocks = record {
      free_blocks = [];
      blocks_exist = (size / block_length) % 2 ^ 32;
      blocks_free = 0;
      file_length = size;
    };
    tables = v.kh.init;
    table_gc = 0;
    size_bytes = 0;
    keys = 0;
    inserts = 0;
    gets = 0;
    deletes = 0;
    operations = 0;
  }

  -- `db_open` once the block file is open: its size, `none` where `lseek` fails, and the index, `none`
  -- where it cannot be opened.
  unfoldable pub db_open : Disk → Option ℕ → Option (List ℕ) → Db v → Option (Db v)
  db_open disk seek index d = do
    size ← elim seek [ some n ↦ some n | none ↦ assert v.truncates >> some 0 ]
    let d1 = open_reset size d
    elim index [
      | some text ↦ load_from_save disk text d1
      | none ↦ do b ← open_blank v.truncates size d1.blocks; some (record d1 { blocks = b })
    ]
