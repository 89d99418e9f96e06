-- ===== src/Db/Load/Restored.antt =====
-- A restart: the index of a table, written by a flush and loaded by `db_open`.
use simple_cache.Base.{
  ℕ, ◌+◌, ◌-◌, ◌/◌, ◌%◌, ◌^◌, ◌≤◌, ◌<◌, ◌≡◌, refl, sym, ◌∙◌, ap, subst, arith, true, false, ◌&&◌,
  none, some, List, [], ◌∷◌, map, length, mem, Distinct, ltb, ==_self, ◌==◌, ◌>>=◌, inl,
}
use mathlib.Core.Option
use simple_cache.Store.{Ptr, Entry}
use simple_cache.Store.Unlink.{data_of}
use simple_cache.Store.Lru.{IsLru}
use simple_cache.HashMap.{IsMap, find}
use simple_cache.Blocks.{Blocks, block_length}
use simple_cache.Blocks.Ownership.{Owns}
use simple_cache.Db.{Env, Table, Db, allocate_at}
use simple_cache.Db.Refs.{table_deref}
use simple_cache.Db.Tables.{probe, new_table, add_table, table_get_write}
use simple_cache.Db.Index.{Writes, Files, index_flush}
use simple_cache.Db.Index.Text.{Item, table_item, entry_item, index_items, IsWrite}
use simple_cache.Db.Load.{
  Disk, Loading, free_unmarked, load_table, leave_table, open_reset, db_open,
}
use simple_cache.Db.Load.Free.{free_unmarked_lem}
use simple_cache.Db.Load.Rows.{load_item, load_items}
use simple_cache.Db.Load.Restart.{
  IsIndexed, index_items-AllItems, reload, index_flush-load_from_save,
}
use simple_cache.Db.Load.Table.{
  saved_hash, hashes, marks, addresses, AllPresent, AllNew, AllHeld, IsReady, Loaded,
  load_entries_lem,
}

-- The number of blocks that `db_open` makes of the size of the block file.
abbrev pub file_blocks : ℕ → ℕ
file_blocks size = (size / block_length) % 2 ^ 32

-- The table `name` with the entries `es`, in the database after a restart.
pub record IsRestored {v : Env} (disk : Disk) (size : ℕ) (name : List ℕ) (es : List Entry)
    (d : Db v) : Type 0 where
  pub tb : Table v
  pub m : v.kh.Map
  pub used : List ℕ
  pub place : find v.kh d.tables (v.hash name (length name)) ≡ some (disk.fresh 0)
  pub table : d.table_at (disk.fresh 0) ≡ some tb
  pub key : tb.key ≡ name
  pub key_length : tb.key_length ≡ length name
  pub entries : tb.cache_hash_set ≡ some m
  pub held : AllHeld disk d m (disk.fresh 0) 1 es
  pub lru : IsLru d.store (addresses disk 1 es)
  pub owned : Owns d.blocks used
  pub marked : (n : ℕ) → mem n used ≡ (ltb n (file_blocks size) && mem n (marks es []))

AllHeld-store :
    {v : Env} (disk : Disk) (d d' : Db v) (m : v.kh.Map) (t : Ptr) (k : ℕ) (es : List Entry)
    → d'.store.entries ≡ d.store.entries
    → AllHeld disk d m t k es
    → AllHeld disk d' m t k es
AllHeld-store disk d d' m t k [] s h = tt
AllHeld-store disk d d' m t k (e ∷ es) s h = (
  (ap (λ f. Option.map data_of (f (disk.fresh k))) s ∙ h.0.0, h.0.1),
  AllHeld-store disk d d' m t (k + 1) es s h.1,
)

reload-run :
    {v : Env} (disk : Disk) (xs : List Item) (d d' : Db v) (l : Loading v) (b : Blocks)
    → load_items disk xs (record { table = none; marked = []; mallocs = 0; db = d }) ≡ some l
    → free_unmarked v.truncates l.marked l.db.blocks.blocks_exist 0 l.db.blocks ≡ some b
    → leave_table l.table (record l.db { blocks = b }) ≡ some d'
    → reload disk xs d ≡ some d'
reload-run disk xs d d' l b p q r = rw (p, ◌>>=◌) (rw (q, ◌>>=◌) r)

module _ {v : Env} (im : IsMap v.kh) (disk : Disk)
    (apart : (i j : ℕ) → disk.fresh i ≡ disk.fresh j → i ≡ j) (size : ℕ)
    (few : file_blocks size ≤ 2147483647) (d0 : Db v)
    (unused : (k : ℕ) → d0.store.entries (disk.fresh k) ≡ none) (name : List ℕ)
    (short : length name < 2 ^ 16) where
  abbrev t : Ptr
  t = disk.fresh 0

  abbrev h : ℕ
  h = v.hash name (length name)

  abbrev opened : Db v
  opened = open_reset size d0

  -- The table is made from its row.
  abbrev l1 : Loading v
  l1 = record {
    table = some t;
    marked = [];
    mallocs = 1;
    db = add_table t name (length name) h opened;
  }

  make-table :
      load_table disk name (record { table = none; marked = []; mallocs = 0; db = opened })
      ≡ some l1
  unfolding load_table table_get_write probe open_reset
  make-table = rw (im.size-init, im.find-init h, ◌>>=◌) refl

  made-IsReady : IsReady disk l1 t (new_table name (length name) h) v.kh.init []
  unfolding open_reset
  made-IsReady = record {
    usable = record {
      table = rw (==_self t) refl;
      map = refl;
      held = omega arith;
      small = omega arith;
      held_twice = inl im.size-init;
    };
    roomy = λ z. omega arith;
    lru = record { chain = tt; head = refl; tail = refl; distinct = tt };
    table = refl;
    unused = λ k i. unused k;
  }

  AllNew-init : (es : List Entry) → AllNew v v.kh.init es
  AllNew-init [] = tt
  AllNew-init (e ∷ es) = (im.find-init (saved_hash v e), AllNew-init es)

  -- The end of the load: what the rows left, with the blocks `b`, and the table given up.
  module _ (e : Entry) (es : List Entry) (l : Loading v) (tb : Table v) (m : v.kh.Map)
      (w : Loaded disk l1 l t (new_table name (length name) h) tb v.kh.init m [] (e ∷ es)) where
    abbrev ended : Blocks → Db v
    ended b = record l.db {
      blocks = b;
      table_at = allocate_at t (record tb { refs = tb.refs - 1 }) l.db.table_at;
    }

    held_twice : 2 ≤ tb.refs
    held_twice =
        ground (
          arith,
          w.ready.usable.held_twice,
          im.size-del m (saved_hash v e) (disk.fresh 1) w.held.0.1,
        )

    give_up : (b : Blocks) → leave_table l.table (record l.db { blocks = b }) ≡ some (ended b)
    unfolding table_deref
    give_up b = rw w.ready.table (rw (w.ready.usable.table, some_refs, ◌>>=◌) (rw more refl))
      where
        some_refs : ltb 0 tb.refs ≡ true
        some_refs = ground (arith, held_twice)

        more : (tb.refs - 1 == 0) ≡ false
        more = ground (arith, held_twice)

    blocks_open : l.db.blocks ≡ opened.blocks
    unfolding open_reset
    blocks_open = w.blocks

    freed :
        (b : Blocks) × (used : List ℕ) × (free_unmarked v.truncates l.marked
            l.db.blocks.blocks_exist 0 l.db.blocks
          ≡ some b)
        × Owns b used
        × ((n : ℕ) → mem n used ≡ (ltb n (file_blocks size) && mem n (marks (e ∷ es) [])))
    unfolding open_reset
    freed =
        let (b, used, run, own, all) =
          free_unmarked_lem v.truncates l.marked l.db.blocks (ap (λ x. x.free_blocks) blocks_open)
            (ap (λ x. x.blocks_free) blocks_open)
            (subst (λ x. x.blocks_exist ≤ 2147483647) (sym blocks_open) few) in
        (
          b,
          used,
          run,
          own,
          λ n.
              all n
              ∙ ap (λ x. ltb n x.blocks_exist && mem n l.marked) blocks_open
              ∙ ap (λ x. ltb n (file_blocks size) && mem n x) w.marked,
        )

    ended-IsRestored :
        (b : Blocks) (used : List ℕ)
        → Owns b used
        → ((n : ℕ) → mem n used ≡ (ltb n (file_blocks size) && mem n (marks (e ∷ es) [])))
        → IsRestored disk size name (e ∷ es) (ended b)
    unfolding open_reset
    ended-IsRestored b used own all = record {
      tb = record tb { refs = tb.refs - 1 };
      m = m;
      used = used;
      place = ap (λ x. find v.kh x h) w.tables ∙ im.find-put_same v.kh.init h t;
      table = rw (==_self t) refl;
      key = w.name.0;
      key_length = w.name.1 ∙ whole;
      entries = w.ready.usable.map;
      held = AllHeld-store disk l.db (ended b) m t 1 (e ∷ es) refl w.held;
      lru = record {
        chain = w.ready.lru.chain;
        head = w.ready.lru.head;
        tail = w.ready.lru.tail;
        distinct = w.ready.lru.distinct;
      };
      owned = own;
      marked = all;
    }
      where
        whole : length name % 2 ^ 16 ≡ length name
        whole = omega (arith, short)

  reload-IsRestored :
      (e : Entry) (es : List Entry)
      → AllPresent v disk t (file_blocks size) h (e ∷ es)
      → Distinct (hashes v (e ∷ es))
      → (d' : Db v) × (reload disk (table_item name ∷ map entry_item (e ∷ es)) opened ≡ some d')
        × IsRestored disk size name (e ∷ es) d'
  unfolding load_items load_item open_reset
  reload-IsRestored e es a u =
      let (l, tb, m, run, w) =
        load_entries_lem im disk apart t (e ∷ es) l1 _ _ [] made-IsReady a (AllNew-init (e ∷ es))
          u in
      let (b, used, freeing, own, all) = freed e es l tb m w in
      (
        ended e es l tb m w b,
        reload-run disk (table_item name ∷ map entry_item (e ∷ es)) opened (ended e es l tb m w b) l
            b (ap (λ r. r >>= load_items disk (map entry_item (e ∷ es))) make-table ∙ run) freeing
            (give_up e es l tb m w b),
        ended-IsRestored e es l tb m w b used own all,
      )

-- Where no write fails, `db_index_flush` of a database with one table leaves an index from which
-- `db_open`, whatever the database was, restores it: the table has its name and is found by its
-- hash; each entry is at the address that `malloc` gave for it, with every field of before but the
-- reference count, which is 1, and is found in the table by the hash of its key; the LRU list has
-- the entries in the order of the index; and of the blocks of the file exactly those that an entry
-- names are in use, all others are free once. The index names at least one entry, names and keys
-- are not empty, have no white space and no NUL and fewer than 2048 bytes, numbers fit 32 bits, that
-- of the file 16, and there are 2147483647 blocks at most. The entries have different hashes, and
-- each has its block or file. The memory that is written from is there, and `malloc` gives memory
-- that is not in use.
pub index_flush-db_open :
    {v : Env} (im : IsMap v.kh) (disk : Disk)
    → ((i j : ℕ) → disk.fresh i ≡ disk.fresh j → i ≡ j)
    → (size : ℕ) → file_blocks size ≤ 2147483647
    → (d0 : Db v) → ((k : ℕ) → d0.store.entries (disk.fresh k) ≡ none)
    → (w : Writes) (d : Db v) (f : Files) (name : List ℕ) (e : Entry) (es : List Entry)
    → IsWrite false w
    → IsIndexed d
    → index_items (v.kh.end d.tables) 0 d ≡ some (table_item name ∷ map entry_item (e ∷ es))
    → AllPresent v disk (disk.fresh 0) (file_blocks size) (v.hash name (length name)) (e ∷ es)
    → Distinct (hashes v (e ∷ es))
    → (f' : Files) × (text : List ℕ) × (d' : Db v) × (index_flush true true w d f ≡ some f')
      × (f'.save ≡ some text)
      × (db_open disk (some size) (some text) d0 ≡ some d')
      × IsRestored disk size name (e ∷ es) d'
unfolding db_open
index_flush-db_open {v} im disk apart size few d0 unused w d f name e es wr g items a u =
    let xs = table_item name ∷ map entry_item (e ∷ es) in
    let all = index_items-AllItems d g (v.kh.end d.tables) 0 xs items in
    let (f', text, flushed, saved, loaded) =
      index_flush-load_from_save w d f xs disk (open_reset size d0) wr g items in
    let (d', run, restored) =
      reload-IsRestored im disk apart size few d0 unused name (omega (arith, all.0.short)) e es a
        u in
    (f', text, d', flushed, saved, loaded ∙ run, restored)
