-- ===== src/Examples/Database.antt =====
-- A database of one table with the keys "a" and "b" and an entry that is being written.
use simple_cache.Base.{
  ℕ, ◌+◌, ◌≡◌, refl, Bool, true, false, Option, none, some, [], ◌∷◌, ◌==◌, if◌then◌else◌, ℤ, pos,
  negsuc, arith, inr,
}
use simple_cache.ReadBuffer.{char_at, strncmp}
use simple_cache.Store.{Ptr, Entry, Store, modify_at}
use simple_cache.Store.Unlink.{SameData}
use simple_cache.Store.Lru.{IsLru}
use simple_cache.HashMap.Slots.{slots, slots-IsMap}
use simple_cache.Db.{Env, Table, Db, incr}
use simple_cache.Db.Refs.{complete_writing}
use simple_cache.Db.Lookup.{count_get, entry_get_read, entry_get_write}
use simple_cache.Db.Lookup.Read.{IsFound, entry_get_read_hit}
use simple_cache.Db.Lookup.Write.{IsUsable}
use simple_cache.Db.RoundTrip.{write-complete-read}
use simple_cache.Db.Allocate.{target_write_allocate}
use simple_cache.Db.Allocate.Accounting.{
  sized, StoredIn, target_write_allocate_new, target_write_allocate_shrink,
}
use simple_cache.Examples.BlockFile.{small, small-Owns}

-- The hash of a key is its first byte.
abbrev pub world : Env
world = record { kh = slots; hash = λ key n. char_at key; now = 100; truncates = true }

abbrev pub entry_of : ℕ → ℕ → ℤ → ℕ → Option Ptr → Option Ptr → Entry
entry_of c refs block size prev next = record {
  table = some 7;
  hash = c;
  key = c ∷ [];
  key_length = 1;
  writing = false;
  deleted = false;
  refs = refs;
  data_length = size;
  block = block;
  expires = 0;
  lru_next = next;
  lru_prev = prev;
  it = 0;
  lru_removed = false;
}

abbrev pub entry_a : Entry
entry_a = entry_of b'a' 1 (pos 0) 10 none (some 2)

abbrev pub entry_b : Entry
entry_b = entry_of b'b' 0 (pos 2) 20 (some 1) none

abbrev entry_c : Entry
entry_c = record (entry_of b'c' 1 (negsuc 1) 0 none none) { writing = true; lru_removed = true }

abbrev entry_dead : Entry
entry_dead = record (entry_of b'd' 1 (pos 2) 5 none none) { deleted = true; lru_removed = true }

abbrev pub cells : slots.Map
cells = slots.put (slots.put slots.init b'a' 1) b'b' 2

abbrev pub table_of : slots.Map → Bool → ℕ → Table world
table_of m deleted refs = record {
  hash = 55;
  key = b't' ∷ [];
  key_length = 1;
  cache_hash_set = some m;
  refs = refs;
  deleted = deleted;
}

abbrev pub db : Db world
db = record {
  store = record {
    entries = λ p.
        if p == 1
        then some entry_a
        else if p == 2
        then some entry_b
        else if p == 3
        then some entry_c
        else if p == 4
        then some entry_dead
        else none;
    lru_head = some 1;
    lru_tail = some 2;
  };
  blocks = small;
  table_at = λ t. if t == 7 then some (table_of cells false 2) else none;
  tables = slots.put slots.init 55 7;
  size_bytes = 30;
  keys = 2;
  inserts = 3;
  gets = 0;
  deletes = 0;
  operations = 3;
  table_gc = 0;
  next_it = 3;
  unlinked = [];
}

pub db-IsLru : IsLru db.store (1 ∷ 2 ∷ [])
db-IsLru = record {
  chain = (refl, (refl, tt));
  head = refl;
  tail = refl;
  distinct = (refl, (refl, tt));
}

-- The table 7 was deleted while it was in use, and the table 8 was made under its name.
abbrev renewed : Db world
renewed = record db {
  table_at = λ t.
      if t == 7
      then some (table_of cells true 1)
      else if t == 8
      then some (table_of slots.init false 1)
      else none;
  tables = slots.put slots.init 55 8;
}

a-IsFound : IsFound db 7 (b'a' ∷ []) 1 1 entry_a
unfolding slots
a-IsFound = record {
  tb = table_of cells false 2;
  m = cells;
  table = refl;
  map = refl;
  place = refl;
  entry = refl;
  hash = refl;
  fresh = refl;
  kept = refl;
}

entry_get_read_hit_example :
    (s : Store) × (entry_get_read 7 (b'a' ∷ []) 1 db
      ≡ some (some 1, record (count_get db) { store = s }))
    × IsLru s (2 ∷ 1 ∷ [])
    × SameData (modify_at db.store.entries 1 (λ e. record e { refs = incr 16 e.refs })) s.entries
unfolding strncmp
entry_get_read_hit_example =
    entry_get_read_hit db 7 (b'a' ∷ []) 1 1 entry_a [] (2 ∷ []) a-IsFound refl refl db-IsLru

pub db-IsUsable : IsUsable db 7 (table_of cells false 2) cells
db-IsUsable = record {
  table = refl;
  map = refl;
  held = omega arith;
  small = omega arith;
  held_twice = inr (omega arith);
}

write-complete-read_example :
    (d1 d2 d3 : Db world) × (entry_get_write 50 some 7 (b'x' ∷ []) 1 9 db ≡ some (some 9, d1))
    × (complete_writing 9 d1 ≡ some d2)
    × (entry_get_read 7 (b'x' ∷ []) 1 d2 ≡ some (some 9, d3))
    × IsLru d3.store (1 ∷ 2 ∷ 9 ∷ [])
unfolding slots
write-complete-read_example =
    write-complete-read slots-IsMap db 7 9 (b'x' ∷ []) 1 (table_of cells false 2) cells (1 ∷ 2 ∷ [])
      db-IsUsable refl refl db-IsLru 50 some (omega arith) refl

target_write_allocate_new_example :
    (d' : Db world) × (b : ℤ) × (target_write_allocate 3 100 db ≡ some d')
    × (d'.store.entries 3 ≡ some (sized entry_c b 100))
    × (d'.size_bytes ≡ 130)
    × StoredIn (0 ∷ 2 ∷ []) entry_c 100 b d'.blocks
target_write_allocate_new_example =
    target_write_allocate_new db 3 entry_c 100 (0 ∷ 2 ∷ []) refl refl refl (omega arith)
      (omega arith) small-Owns

target_write_allocate_shrink_example :
    (d' : Db world) × (target_write_allocate 2 5 db ≡ some d') × (d'.size_bytes + 15 ≡ 4294967326)
target_write_allocate_shrink_example =
    target_write_allocate_shrink db 2 entry_b 5 2 refl refl (omega arith) (omega arith)
      (omega arith)
