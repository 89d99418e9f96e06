-- ===== src/Examples/Deletions.antt =====
-- Entries and a table that are deleted.
use simple_cache.Base.{
  ◌+◌, ◌≡◌, refl, true, false, none, some, [], ◌∷◌, ◌==◌, if◌then◌else◌, pos, arith,
}
use simple_cache.Store.Lru.{IsLru}
use simple_cache.Blocks.Ownership.{Owns}
use simple_cache.HashMap.{find}
use simple_cache.HashMap.Slots.{slots, slots-IsMap}
use simple_cache.Db.{Db}
use simple_cache.Db.Delete.{entry_handle_softdelete, entry_handle_delete}
use simple_cache.Db.Delete.Entries.{IsStored, Gone}
use simple_cache.Db.Delete.Unread.{softdelete_unread}
use simple_cache.Db.Delete.Hard.{handle_delete_others, handle_delete_last}
use simple_cache.Store.{Entry}
use simple_cache.Examples.BlockFile.{small-Owns}
use simple_cache.Examples.Database.{
  world, entry_of, entry_a, entry_b, cells, table_of, db, db-IsLru,
}

a-IsStored : IsStored db 1 entry_a 7 (table_of cells false 2) cells
unfolding slots
a-IsStored = record {
  entry = refl;
  live = refl;
  complete = refl;
  table = refl;
  table_at = refl;
  map = refl;
  place = refl;
  bytes = omega arith;
  size_u64 = omega arith;
}

b-IsStored : IsStored db 2 entry_b 7 (table_of cells false 2) cells
unfolding slots
b-IsStored = record {
  entry = refl;
  live = refl;
  complete = refl;
  table = refl;
  table_at = refl;
  map = refl;
  place = refl;
  bytes = omega arith;
  size_u64 = omega arith;
}

softdelete_unread_example :
    (d' : Db world) × (entry_handle_softdelete 2 (slots.get cells b'b') db ≡ some d')
    × (d'.store.entries 2 ≡ none)
    × IsLru d'.store (1 ∷ [])
    × Owns d'.blocks (0 ∷ [])
softdelete_unread_example =
    softdelete_unread db 2 entry_b 7 (table_of cells false 2) cells b-IsStored slots-IsMap (1 ∷ [])
      [] db-IsLru 2 (0 ∷ 2 ∷ []) refl refl (omega arith) small-Owns refl

handle_delete_others_example :
    (d' : Db world) × (entry_handle_delete 1 (slots.get cells b'a') db ≡ some (false, d'))
    × Gone db 1 entry_a 7 (table_of cells false 2) cells a-IsStored d' (2 ∷ [])
    × (d'.keys + 1 ≡ 2)
unfolding slots
handle_delete_others_example =
    handle_delete_others db 1 entry_a 7 (table_of cells false 2) cells a-IsStored (λ e. omega arith)
      (λ e. omega arith) slots-IsMap [] (2 ∷ []) db-IsLru (λ e. omega arith)

-- One key.
abbrev alone : Entry
alone = entry_of b'a' 1 (pos 0) 30 none none

abbrev one_cell : slots.Map
one_cell = slots.put slots.init b'a' 1

abbrev one : Db world
one = record db {
  store = record {
    entries = λ p. if p == 1 then some alone else none;
    lru_head = some 1;
    lru_tail = some 1;
  };
  table_at = λ t. if t == 7 then some (table_of one_cell false 2) else none;
}

one-IsStored : IsStored one 1 alone 7 (table_of one_cell false 2) one_cell
unfolding slots
one-IsStored = record {
  entry = refl;
  live = refl;
  complete = refl;
  table = refl;
  table_at = refl;
  map = refl;
  place = refl;
  bytes = omega arith;
  size_u64 = omega arith;
}

one-IsLru : IsLru one.store (1 ∷ [])
one-IsLru = record { chain = (refl, tt); head = refl; tail = refl; distinct = (refl, tt) }

handle_delete_last_example :
    (d' : Db world) × (entry_handle_delete 1 (slots.get one_cell b'a') one ≡ some (true, d'))
    × (find slots d'.tables 55 ≡ none)
    × (d'.table_at 7 ≡ some (record (table_of one_cell true 1) { cache_hash_set = none }))
    × IsLru d'.store []
    × (d'.size_bytes + 30 ≡ 30)
unfolding slots
handle_delete_last_example =
    handle_delete_last one 1 alone 7 (table_of one_cell false 2) one_cell one-IsStored
      (λ e. omega arith) (λ e. omega arith) slots-IsMap [] [] one-IsLru refl refl (omega arith) refl
