-- ===== src/Examples/Collect.antt =====
-- The collection of the only entry of a table that nothing else refers to.
use simple_cache.Base.{ℕ, ◌≡◌, refl, false, Option, none, some, ◌==◌, if◌then◌else◌, ◌>>=◌, Bool}
use mathlib.Core.Option
use simple_cache.HashMap.Slots.{slots}
use simple_cache.Blocks.{block_free}
use simple_cache.Store.{modify_at, lru_remove_node, unlink_prev, unlink_next}
use simple_cache.Db.{Db, entry_cleanup}
use simple_cache.Db.Refs.{entry_incref, entry_deref, table_deref, entry_actually_delete}
use simple_cache.Db.Delete.{
  entry_delete_found, entry_handle_delete, delete_empty_table, delete_table_entry,
  table_handle_delete, entry_handle_softdelete,
}
use simple_cache.Db.Collect.{collect_entry, lru_gc}
use simple_cache.Examples.Database.{world, db, table_of, entry_b}

abbrev lonely : Db world
lonely = record db {
  store = record {
    entries = λ p. if p == 2 then some (record entry_b { lru_prev = none }) else none;
    lru_head = some 2;
    lru_tail = some 2;
  };
  table_at = λ t. if t == 7 then some (table_of (slots.put slots.init b'b' 2) false 1) else none;
  keys = 1;
  size_bytes = 20;
}

-- The entry goes, and the table is deleted, but stays allocated with a reference.
abbrev left : Option (Option Bool × Option ℕ)
left = do
  d ← lru_gc 10 (λ n. 15) 3 lonely
  some (Option.map (λ e. e.deleted) (d.store.entries 2), Option.map (λ tb. tb.refs) (d.table_at 7))

table_stays : left ≡ some (none, some 1)
unfolding lru_gc slots collect_entry entry_incref entry_delete_found modify_at entry_handle_delete
    entry_cleanup lru_remove_node unlink_prev unlink_next delete_empty_table delete_table_entry
    table_deref entry_deref block_free
table_stays = refl

-- The deletion of the table reads the entry after it was freed.
table_delete_faults : table_handle_delete 7 lonely ≡ none
unfolding table_handle_delete slots entry_handle_softdelete modify_at lru_remove_node unlink_prev
    unlink_next entry_cleanup entry_actually_delete block_free
table_delete_faults = refl
