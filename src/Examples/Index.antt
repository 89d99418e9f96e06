-- ===== src/Examples/Index.antt =====
-- An index of two entries, written a byte at a time and loaded into a new database.
use simple_cache.Base.{
  ℕ, ◌+◌, ◌≡◌, ◌⊎◌, inl, inr, refl, subst, true, false, ◌&&◌, ◌||◌, none, some, List, [], ◌∷◌, ltb,
  ◌==◌, arith, min, mem, take, Bool-cases, ◌≤◌,
}
use mathlib.Core.Option.{none-ne-some, some-injective}
use simple_cache.Blocks.{Blocks}
use simple_cache.Blocks.Ownership.{Owns}
use simple_cache.HashMap.Slots.{slots, slots-IsMap}
use simple_cache.Store.{Ptr, Entry}
use simple_cache.Store.Lru.{IsLru}
use simple_cache.Db.{Db, Table}
use simple_cache.Db.Delete.{entry_handle_delete}
use simple_cache.Db.Index.{Writes, Files, index_flush}
use simple_cache.Db.Index.Text.{
  Item, table_item, entry_item, text_of, entry_items, index_items, IsWrite,
}
use simple_cache.Db.Index.Flush.{index_flush_lem}
use simple_cache.Db.Load.{Disk, Scanned, Loading, free_unmarked, db_open}
use simple_cache.Db.Load.Scans.{IsKey, IsSaved}
use simple_cache.Db.Load.Free.{free_unmarked_lem}
use simple_cache.Db.Load.Opened.{db_open-blank}
use simple_cache.Db.Load.Restart.{IsIndexed}
use simple_cache.Db.Load.Restored.{IsRestored, index_flush-db_open}
use simple_cache.Db.Load.Leak.{Loads, Stays, load_entry_lem, load_entry-leaks}
use simple_cache.Examples.Database.{
  world, db, db-IsLru, db-IsUsable, table_of, cells, entry_a, entry_b,
}

abbrev byte_by_byte : Writes
byte_by_byte k n = some (min n 1)

byte_by_byte-IsWrite : IsWrite false byte_by_byte
byte_by_byte-IsWrite k n = inr (min n 1, refl, omega arith, ground arith)

abbrev items : List Item
items = table_item (b't' ∷ []) ∷ entry_item entry_b ∷ entry_item entry_a ∷ []

db-items : index_items (slots.end db.tables) 0 db ≡ some items
unfolding index_items entry_items slots
db-items = refl

abbrev old : Files
old = record { temp = none; save = some [] }

index_flush_lem_example :
    (f' : Files) × (index_flush true true byte_by_byte db old ≡ some f')
    × ((f'.save ≡ some []) ⊎ (f'.save ≡ some (text_of items)))
    × (false ≡ false → f'.save ≡ some (text_of items))
index_flush_lem_example =
    index_flush_lem false byte_by_byte db old items byte_by_byte-IsWrite db-items

abbrev disk : Disk
disk = record { fresh = λ k. k + 10; access = λ n. true }

small-IsKey :
    (c : ℕ) → (c == b'a') ≡ true ⊎ (c == b'b') ≡ true ⊎ (c == b't') ≡ true → IsKey (c ∷ [])
small-IsKey c h = record {
  first = c;
  rest = [];
  parts = refl;
  plain = ground (arith, h);
  short = omega arith;
}

a-IsSaved : IsSaved entry_a
a-IsSaved = record {
  key = small-IsKey b'a' (inl refl);
  whole = refl;
  block = omega arith;
  length_u32 = omega arith;
  expires_u32 = omega arith;
  it_u16 = omega arith;
}

b-IsSaved : IsSaved entry_b
b-IsSaved = record {
  key = small-IsKey b'b' (inr (inl refl));
  whole = refl;
  block = omega arith;
  length_u32 = omega arith;
  expires_u32 = omega arith;
  it_u16 = omega arith;
}

entries-IsSaved :
    (p : Ptr) (e : Entry)
    → db.store.entries p ≡ some e
    → (e.writing || e.deleted) ≡ false
    → IsSaved e
entries-IsSaved p e h f = elim (Bool-cases (p == 1)) [
  | inl a ↦ subst IsSaved (some-injective entry_a e (rw a at h)) a-IsSaved
  | inr a ↦ elim (Bool-cases (p == 2)) [
    | inl b ↦ subst IsSaved (some-injective entry_b e (rw b at (rw a at h))) b-IsSaved
    | inr b ↦ absurd (ground (arith, h, f, a, b))
  ]
]

tables-IsKey :
    (t : Ptr) (tb : Table world)
    → db.table_at t ≡ some tb
    → tb.deleted ≡ false
    → IsKey (take tb.key_length tb.key)
tables-IsKey t tb h f = elim (Bool-cases (t == 7)) [
  | inl a ↦
      subst (λ x. IsKey (take x.key_length x.key))
        (some-injective (table_of cells false 2) tb (rw a at h)) (small-IsKey b't' (inr (inr refl)))
  | inr a ↦ absurd (none-ne-some tb (rw a at h))
]

db-IsIndexed : IsIndexed db
db-IsIndexed = record { entries = entries-IsSaved; tables = tables-IsKey }

-- The addresses that `malloc` returns in the new run.
disk-unused : (k : ℕ) → db.store.entries (disk.fresh k) ≡ none
disk-unused k = ground arith

index_flush-db_open_example :
    (f' : Files) × (text : List ℕ) × (d' : Db world) × (index_flush true true byte_by_byte db old
      ≡ some f')
    × (f'.save ≡ some text)
    × (db_open disk (some 12288) (some text) db ≡ some d')
    × IsRestored disk 12288 (b't' ∷ []) (entry_b ∷ entry_a ∷ []) d'
index_flush-db_open_example =
    index_flush-db_open slots-IsMap disk (λ i j e. omega (arith, e)) 12288 (omega arith) db
      disk-unused byte_by_byte db old (b't' ∷ []) entry_b (entry_a ∷ []) byte_by_byte-IsWrite
      db-IsIndexed db-items ((b-IsSaved, refl), ((a-IsSaved, refl), tt)) (refl, (refl, tt))

abbrev unmarked : Blocks
unmarked = record { free_blocks = []; blocks_exist = 3; blocks_free = 0; file_length = 12288 }

free_unmarked_lem_example :
    (b' : Blocks) × (used : List ℕ) × (free_unmarked true (2 ∷ 0 ∷ 2 ∷ []) 3 0 unmarked ≡ some b')
    × Owns b' used
    × ((n : ℕ) → mem n used ≡ (ltb n 3 && mem n (2 ∷ 0 ∷ 2 ∷ [])))
free_unmarked_lem_example = free_unmarked_lem true (2 ∷ 0 ∷ 2 ∷ []) unmarked refl refl (omega arith)

db_open-blank_example :
    (d' : Db world) × (db_open disk (some 10000) none db ≡ some d')
    × Owns d'.blocks []
    × (d'.blocks.blocks_exist ≤ 8192)
    × IsLru d'.store []
    × (d'.tables ≡ slots.init)
    × (d'.size_bytes ≡ 0)
    × (d'.keys ≡ 0)
db_open-blank_example = db_open-blank disk 10000 db refl (omega arith)

abbrev row : Scanned
row = record { block = 1; data_length = 5; expires = 0; it = 2; key = b'x' ∷ [] }

abbrev loading : Loading world
loading = record { table = some 7; marked = 2 ∷ []; mallocs = 0; db = db }

load_entry_lem_example :
    (d' : Db world) × Loads disk 7 row loading
      (table_of cells false 2)
      cells
      1
      (1 ∷ 2 ∷ [])
      db-IsUsable
      refl
      (omega arith)
      db-IsLru
      refl
      d'
load_entry_lem_example =
    load_entry_lem disk 7 row loading (table_of cells false 2) cells 1 (1 ∷ 2 ∷ []) db-IsUsable refl
      (omega arith) db-IsLru refl

load_entry-leaks_example :
    (d' : Db world) × (d2 : Db world) × Loads disk 7 row loading
      (table_of cells false 2)
      cells
      1
      (1 ∷ 2 ∷ [])
      db-IsUsable
      refl
      (omega arith)
      db-IsLru
      refl
      d'
    × (entry_handle_delete 10 0 d' ≡ some (false, d2))
    × Stays disk 7 row loading
        (table_of cells false 2)
        cells
        1
        (1 ∷ 2 ∷ [])
        db-IsUsable
        refl
        (omega arith)
        db-IsLru
        refl
        d2
unfolding slots
load_entry-leaks_example =
    load_entry-leaks disk 7 row loading (table_of cells false 2) cells 1 (1 ∷ 2 ∷ []) db-IsUsable
      refl (omega arith) db-IsLru refl slots-IsMap (λ e. omega arith) (omega arith) (omega arith)
