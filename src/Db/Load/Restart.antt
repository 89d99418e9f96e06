-- ===== src/Db/Load/Restart.antt =====
-- The index of one run of the program, loaded by the next.
use simple_cache.Base.{
  ℕ, zero, suc, ◌+◌, ◌≡◌, refl, subst, true, false, ◌||◌, Option, none, some, List, [], ◌∷◌, ◌++◌,
  take, ◌>>=◌, Option-cases, Bool-cases, inl, inr,
}
use mathlib.Core.Option.{some-injective}
use simple_cache.Store.{Ptr, Entry}
use simple_cache.Db.{Env, Db, Table}
use simple_cache.Db.Index.{Writes, Files, index_flush}
use simple_cache.Db.Index.Text.{
  Item, table_item, entry_item, text_of, entry_items, index_items, IsWrite,
}
use simple_cache.Db.Index.Flush.{some-bind, index_flush_lem}
use simple_cache.Db.Load.{Disk, Loading, free_unmarked, leave_table, load_from_save}
use simple_cache.Db.Load.Scans.{IsKey, IsSaved}
use simple_cache.Db.Load.Rows.{AllItems, load_items, load_rows-text_of}

AllItems-append : (xs ys : List Item) → AllItems xs → AllItems ys → AllItems (xs ++ ys)
AllItems-append [] ys a b = b
AllItems-append (x ∷ xs) ys a b = (a.0, AllItems-append xs ys a.1 b)

module _ {v : Env} where
  -- What a flush writes has keys that rows can hold, and fields in range.
  pub record IsIndexed (d : Db v) : Type 0 where
    pub entries :
        (p : Ptr) (e : Entry)
        → d.store.entries p ≡ some e
        → (e.writing || e.deleted) ≡ false
        → IsSaved e
    pub tables :
        (t : Ptr) (tb : Table v)
        → d.table_at t ≡ some tb
        → tb.deleted ≡ false
        → IsKey (take tb.key_length tb.key)

  module _ (d : Db v) (g : IsIndexed d) where
    entry_items-AllItems :
        (count k : ℕ) (m : v.kh.Map) (xs : List Item)
        → entry_items count k m d ≡ some xs
        → AllItems xs
    unfolding entry_items
    entry_items-AllItems zero k m xs e = subst AllItems (some-injective [] xs e) tt
    entry_items-AllItems (suc count) k m xs e = elim (Option-cases (v.kh.value m k)) [
      | inl n ↦ entry_items-AllItems count (k + 1) m xs (rw (entry_items, n) at e)
      | inr x ↦
          let e1 = some-bind (d.store.entries x.0) _ xs (rw (entry_items, x.1) at e) in
          let e2 = some-bind (entry_items count (k + 1) m d) _ xs e1.2 in
          let later = entry_items-AllItems count (k + 1) m e2.0 e2.1 in
          elim (Bool-cases (e1.0.writing || e1.0.deleted)) [
            | inl t ↦ subst AllItems (some-injective e2.0 xs (rw t at e2.2)) later
            | inr f ↦
                subst AllItems (some-injective (entry_item e1.0 ∷ e2.0) xs (rw f at e2.2))
                  (g.entries x.0 e1.0 e1.1 f, later)
          ]
    ]

    pub index_items-AllItems :
        (count k : ℕ) (xs : List Item) → index_items count k d ≡ some xs → AllItems xs
    unfolding index_items
    index_items-AllItems zero k xs e = subst AllItems (some-injective [] xs e) tt
    index_items-AllItems (suc count) k xs e = elim (Option-cases (v.kh.value d.tables k)) [
      | inl n ↦ index_items-AllItems count (k + 1) xs (rw (index_items, n) at e)
      | inr x ↦
          let e1 = some-bind (d.table_at x.0) _ xs (rw (index_items, x.1) at e) in
          let e2 = some-bind (index_items count (k + 1) d) _ xs e1.2 in
          let later = index_items-AllItems count (k + 1) e2.0 e2.1 in
          elim (Bool-cases e1.0.deleted) [
            | inl t ↦ subst AllItems (some-injective e2.0 xs (rw t at e2.2)) later
            | inr f ↦
                let e3 = some-bind e1.0.cache_hash_set _ xs (rw f at e2.2) in
                let e4 = some-bind (entry_items (v.kh.end e3.0) 0 e3.0 d) _ xs e3.2 in
                let entries = entry_items-AllItems (v.kh.end e3.0) 0 e3.0 e4.0 e4.1 in
                let name = take e1.0.key_length e1.0.key in
                subst AllItems (some-injective (table_item name ∷ (e4.0 ++ e2.0)) xs e4.2)
                  (g.tables x.0 e1.0 e1.1 f, AllItems-append e4.0 e2.0 entries later)
          ]
    ]

  -- `db_load_from_save` of tables and entries in place of their text.
  abbrev pub reload : Disk → List Item → Db v → Option (Db v)
  reload disk xs d = do
    l ← load_items disk xs (record { table = none; marked = []; mallocs = 0; db = d })
    b ← free_unmarked v.truncates l.marked l.db.blocks.blocks_exist 0 l.db.blocks
    leave_table l.table (record l.db { blocks = b })

  -- Where no write fails, `db_index_flush` leaves an index whose rows `db_load_from_save` reads back as
  -- the tables and entries that they were made of, in their order. The names and keys are not empty,
  -- have no white space and no NUL and fewer than 2048 bytes, the numbers have 32 bits, 16 that of the
  -- file, and the memory that is written from is there.
  pub index_flush-load_from_save :
      (w : Writes) (d : Db v) (f : Files) (xs : List Item) (disk : Disk) (d2 : Db v)
      → IsWrite false w
      → IsIndexed d
      → index_items (v.kh.end d.tables) 0 d ≡ some xs
      → (f' : Files) × (text : List ℕ) × (index_flush true true w d f ≡ some f')
        × (f'.save ≡ some text)
        × (load_from_save disk text d2 ≡ reload disk xs d2)
  unfolding load_from_save
  index_flush-load_from_save w d f xs disk d2 h g e =
      let r = index_flush_lem false w d f xs h e in
      let start : Loading v = record { table = none; marked = []; mallocs = 0; db = d2 } in
      (
        r.0,
        text_of xs,
        r.1,
        r.3 refl,
        rw (load_rows-text_of disk xs start (index_items-AllItems d g _ 0 xs e)) refl,
      )
