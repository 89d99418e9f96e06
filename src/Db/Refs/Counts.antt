-- ===== src/Db/Refs/Counts.antt =====
-- What a reference count that falls does.
use simple_cache.Base.{
  ℕ, ◌+◌, ◌-◌, ◌%◌, ◌^◌, ◌<◌, ◌≤◌, ◌≡◌, ◌≢◌, refl, sym, ◌∙◌, true, false, none, some, arith, ◌==◌,
  mem, List, pos, ==_self, ==_ne, ◌>>=◌, Option-cases, inl, inr, ◌&&◌, if◌then◌else◌,
}
use simple_cache.Store.{Ptr, Entry, modify_at}
use simple_cache.Store.Links.{modify_at-some}
use simple_cache.Blocks.{Blocks, block_length, block_free}
use simple_cache.Blocks.Ownership.{Owns, without, block_free_lem}
use simple_cache.HashMap.{IsMap, find}
use simple_cache.Db.{Env, Table, Db, single_file, free_at, allocate_at}
use simple_cache.Db.Refs.{entry_deref, entry_actually_delete, table_deref}

-- The last reference to a deleted table takes the place of the table's hash out of the database,
-- though it is another table, made under the same name since, that stands there. That table stays
-- allocated.
pub table_deref_drops_successor :
    {v : Env} (m : IsMap v.kh) (d : Db v) (t new : Ptr) (tb : Table v)
    → d.table_at t ≡ some tb
    → tb.deleted ≡ true
    → tb.refs ≡ 1
    → find v.kh d.tables tb.hash ≡ some new
    → new ≢ t
    → (d' : Db v) × (table_deref t false d ≡ some d')
      × (find v.kh d'.tables tb.hash ≡ none)
      × (d'.table_at new ≡ d.table_at new)
unfolding table_deref
table_deref_drops_successor {v} m d t new tb l x r f n = (
  record d {
    table_at = free_at t (allocate_at t (record tb { refs = tb.refs - 1 }) d.table_at);
    tables = v.kh.del d.tables (v.kh.get d.tables tb.hash);
  },
  rw (l, ◌>>=◌) (rw (r, x, ◌>>=◌, ==_self t) (rw (not_end) refl)),
  m.find-del_same d.tables tb.hash new f,
  rw (==_ne t new (λ e. n (sym e))) refl,
)
  where
    not_end : (v.kh.get d.tables tb.hash == v.kh.end d.tables) ≡ false
    not_end = ground arith

abbrev less_one : Entry → Entry
less_one r = record r { refs = (r.refs + 2 ^ 16 - 1) % 2 ^ 16 }

-- The database after the count of the entry at `p` has fallen.
abbrev pub counted : {v : Env} → Ptr → Db v → Db v
counted p d = record d { store = record d.store { entries = modify_at d.store.entries p less_one } }

deref-run :
    {v : Env} (d : Db v) (p : Ptr) (e : Entry)
    → d.store.entries p ≡ some e
    → entry_deref p false d ≡ (
        if ((e.refs + 2 ^ 16 - 1) % 2 ^ 16 == 0) && e.deleted
        then entry_actually_delete p (counted p d)
        else some (counted p d))
unfolding entry_deref
deref-run d p e l = elim (Option-cases e.table) [
  | inl k ↦
      rw (l, ◌>>=◌) (rw (k, ◌>>=◌) (rw (modify_at-some d.store.entries p less_one e l, ◌>>=◌) refl))
  | inr (t, k) ↦
      rw (l, ◌>>=◌) (rw (k, ◌>>=◌) (rw (modify_at-some d.store.entries p less_one e l, ◌>>=◌) refl))
]

-- `db_entry_deref` of a reference that is not the last, or of an entry that is not deleted, only
-- counts.
pub entry_deref-keeps :
    {v : Env} (d : Db v) (p : Ptr) (e : Entry) (n : ℕ)
    → d.store.entries p ≡ some e
    → e.refs ≡ n + 1
    → n + 1 < 2 ^ 16
    → ((n == 0) && e.deleted) ≡ false
    → entry_deref p false d ≡ some (counted p d)
entry_deref-keeps d p e n l r h k = deref-run d p e l ∙ rw (kept) refl
  where
    kept : (((e.refs + 2 ^ 16 - 1) % 2 ^ 16 == 0) && e.deleted) ≡ false
    kept = ground arith

pub actually_delete-run :
    {v : Env} (d : Db v) (p : Ptr) (e : Entry) (n : ℕ) (b : Blocks)
    → d.store.entries p ≡ some e
    → e.lru_removed ≡ true
    → e.block ≡ pos n
    → single_file e ≡ false
    → block_free v.truncates n d.blocks ≡ some b
    → entry_actually_delete p d
      ≡ some
          (record d { blocks = b; store = record d.store { entries = free_at p d.store.entries } })
unfolding entry_actually_delete
actually_delete-run d p e n b l k m s f = rw (l, ◌>>=◌) (rw (k, m, ◌>>=◌) (rw (s, f, ◌>>=◌) refl))

-- `db_entry_deref` of the last reference to a deleted entry that is in no list frees its memory and
-- gives back its block, which was in use.
pub entry_deref-frees :
    {v : Env} (d : Db v) (p : Ptr) (e : Entry) (n : ℕ) (used : List ℕ)
    → d.store.entries p ≡ some e
    → e.refs ≡ 1
    → e.deleted ≡ true
    → e.lru_removed ≡ true
    → e.block ≡ pos n
    → e.data_length ≤ block_length
    → Owns d.blocks used
    → mem n used ≡ true
    → (d' : Db v) × (entry_deref p false d ≡ some d')
      × (d'.store.entries p ≡ none)
      × Owns d'.blocks (without n used)
entry_deref-frees {v} d p e n used l r x k b s o m =
    freed (block_free_lem v.truncates d.blocks used n o m)
  where
    last_one : (((e.refs + 2 ^ 16 - 1) % 2 ^ 16 == 0) && e.deleted) ≡ true
    last_one = ground arith

    freed :
        ((b' : Blocks) × (block_free v.truncates n d.blocks ≡ some b') × Owns b' (without n used))
        → (d' : Db v) × (entry_deref p false d ≡ some d')
          × (d'.store.entries p ≡ none)
          × Owns d'.blocks (without n used)
    freed (b', run, own) = (
      record (counted p d) {
        blocks = b';
        store = record (counted p d).store { entries = free_at p (counted p d).store.entries };
      },
      deref-run d p e l
          ∙ (rw last_one (
              actually_delete-run (counted p d) p (less_one e) n b'
                (modify_at-some d.store.entries p less_one e l) k b (ground arith) run)),
      rw (==_self p) refl,
      own,
    )
