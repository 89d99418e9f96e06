-- ===== src/Db/Index/Flush.antt =====
-- A flush writes the rows of the index, or leaves the old index.
use simple_cache.Base.{
  ℕ, zero, suc, ◌+◌, ◌≡◌, refl, subst, sym, ◌∙◌, ap, arith, Bool, true, false, ◌||◌, Option, none,
  some, List, [], ◌∷◌, ◌++◌, append-nil, append_assoc, take, ◌⊎◌, inl, inr, ◌>>=◌, Option-cases,
  Bool-cases,
}
use mathlib.Core.Bool.{false≢true}
use mathlib.Core.Option.{some-injective, none-ne-some}
use simple_cache.Db.{Env, Table, Db}
use simple_cache.Db.Index.{
  Output, Writes, and_write, put_row, flush_entries, flush_table, flush_tables, Files, index_flush,
}
use simple_cache.Db.Index.Text.{
  Item, table_item, entry_item, row_of, text_of, text_of-append, entry_row, table_row, entry_items,
  index_items, IsWrite, Puts, full_write-Puts,
}

-- A value that is computed, and one that is.
pub some-bind {ℓ κ} :
    {A : Type ℓ} {B : Type κ} (m : Option A) (f : A → Option B) (b : B)
    → (m >>= f) ≡ some b
    → (a : A) × (m ≡ some a) × (f a ≡ some b)
some-bind none f b h = absurd (none-ne-some _ h)
some-bind (some a) f b h = (a, refl, h)

-- The rows of one table and of those after it.
text_of-table :
    (x : Item) (es rest : List Item)
    → text_of (x ∷ (es ++ rest)) ≡ (row_of x ++ text_of es) ++ text_of rest
text_of-table x es rest =
    ap (λ t. row_of x ++ t) (text_of-append es rest)
    ∙ sym (append_assoc (row_of x) (text_of es) (text_of rest))

module _ (fails : Bool) where
  -- Nothing to write.
  nothing-Puts : (o : Output) → Puts fails [] o (some (true, o))
  nothing-Puts o = ((true, o), refl, λ t. sym (append-nil _), λ t. refl)

  -- One step after another.
  and_write-Puts :
      (a b : List ℕ) (o : Output) (m : Option (Bool × Output)) (k : Output → Option (Bool × Output))
      → Puts fails a o m
      → ((o1 : Output) → Puts fails b o1 (k o1))
      → Puts fails (a ++ b) o (and_write m k)
  and_write-Puts a b o m k x y = elim (Bool-cases x.0.0) [
    | inr f ↦ (
      x.0,
      rw (x.1, ◌>>=◌) (rw f refl),
      λ t. absurd (false≢true (sym f ∙ t)),
      λ t. absurd (false≢true (sym f ∙ x.3 t)),
    )
    | inl t ↦
        let z = y x.0.1 in
        (
          z.0,
          rw (x.1, ◌>>=◌) (rw t z.1),
          λ u. z.2 u ∙ ap (λ bs. bs ++ b) (x.2 t) ∙ append_assoc o.text a b,
          z.3,
        )
  ]

  module _ (w : Writes) (h : IsWrite fails w) where
    put_row-Puts :
        (head key : List ℕ) (o : Output)
        → Puts fails (head ++ (key ++ 10 ∷ [])) o (put_row w head key o)
    unfolding put_row
    put_row-Puts head key o =
        and_write-Puts head (key ++ 10 ∷ []) o _ _
          (full_write-Puts fails w h _ head o (omega arith))
          λ o1.
            and_write-Puts key (10 ∷ []) o1 _ _ (full_write-Puts fails w h _ key o1 (omega arith))
              λ o2. full_write-Puts fails w h _ (10 ∷ []) o2 (omega arith)

    module _ {v : Env} where
      flush_entries-Puts :
          (count k : ℕ) (m : v.kh.Map) (d : Db v) (rs : List Item) (o : Output)
          → entry_items count k m d ≡ some rs
          → Puts fails (text_of rs) o (flush_entries w count k m d o)
      unfolding entry_items flush_entries
      flush_entries-Puts zero k m d rs o e =
          subst (λ x. Puts fails (text_of x) o (some (true, o))) (some-injective [] rs e)
            (nothing-Puts o)
      flush_entries-Puts (suc count) k m d rs o e = elim (Option-cases (v.kh.value m k)) [
        | inl n ↦
            rw (flush_entries, n)
              (flush_entries-Puts count (k + 1) m d rs o (rw (entry_items, n) at e))
        | inr x ↦
            let e1 = some-bind (d.store.entries x.0) _ rs (rw (entry_items, x.1) at e) in
            let e2 = some-bind (entry_items count (k + 1) m d) _ rs e1.2 in
            let later = λ (o1 : Output). flush_entries-Puts count (k + 1) m d e2.0 o1 e2.1 in
            elim (Bool-cases (e1.0.writing || e1.0.deleted)) [
              | inl t ↦
                  let same : e2.0 ≡ rs = some-injective e2.0 rs (rw t at e2.2) in
                  rw (flush_entries, x.1) (rw (e1.1, ◌>>=◌) (rw t (rw (sym same) (later o))))
              | inr f ↦
                  let same : entry_item e1.0 ∷ e2.0 ≡ rs = some-injective _ rs (rw f at e2.2) in
                  rw (flush_entries, x.1)
                    (rw (e1.1, ◌>>=◌)
                      (rw f (
                        rw (sym same) (
                          and_write-Puts (entry_row e1.0) (text_of e2.0) o _ _ (put_row-Puts _ _ o)
                            later))))
            ]
      ]

      flush_table-Puts :
          (tb : Table v) (d : Db v) (m : v.kh.Map) (es : List Item) (o : Output)
          → tb.cache_hash_set ≡ some m
          → entry_items (v.kh.end m) 0 m d ≡ some es
          → Puts fails
              (table_row (take tb.key_length tb.key) ++ text_of es)
              o
              (flush_table w tb d o)
      unfolding flush_table
      flush_table-Puts tb d m es o c e =
          and_write-Puts (table_row (take tb.key_length tb.key)) (text_of es) o _ _
            (put_row-Puts _ _ o) λ o1. rw (c, ◌>>=◌) (flush_entries-Puts (v.kh.end m) 0 m d es o1 e)

      live-Puts :
          (tb : Table v) (d : Db v) (m : v.kh.Map) (es rest rs : List Item) (o : Output)
          (k : Output → Option (Bool × Output))
          → tb.cache_hash_set ≡ some m
          → entry_items (v.kh.end m) 0 m d ≡ some es
          → table_item (take tb.key_length tb.key) ∷ (es ++ rest) ≡ rs
          → ((o1 : Output) → Puts fails (text_of rest) o1 (k o1))
          → Puts fails (text_of rs) o (and_write (flush_table w tb d o) k)
      live-Puts tb d m es rest rs o k c e q later =
          let row = table_row (take tb.key_length tb.key) in
          subst (λ bs. Puts fails bs o (and_write (flush_table w tb d o) k))
            (sym (text_of-table (table_item (take tb.key_length tb.key)) es rest) ∙ ap text_of q)
            (and_write-Puts (row ++ text_of es) (text_of rest) o (flush_table w tb d o) k
              (flush_table-Puts tb d m es o c e) later)

      flush_tables-Puts :
          (count k : ℕ) (d : Db v) (rs : List Item) (o : Output)
          → index_items count k d ≡ some rs
          → Puts fails (text_of rs) o (flush_tables w count k d o)
      unfolding index_items flush_tables
      flush_tables-Puts zero k d rs o e =
          subst (λ x. Puts fails (text_of x) o (some (true, o))) (some-injective [] rs e)
            (nothing-Puts o)
      flush_tables-Puts (suc count) k d rs o e = elim (Option-cases (v.kh.value d.tables k)) [
        | inl n ↦
            rw (flush_tables, n) (flush_tables-Puts count (k + 1) d rs o (rw (index_items, n) at e))
        | inr x ↦
            let e1 = some-bind (d.table_at x.0) _ rs (rw (index_items, x.1) at e) in
            let e2 = some-bind (index_items count (k + 1) d) _ rs e1.2 in
            let later = λ (o1 : Output). flush_tables-Puts count (k + 1) d e2.0 o1 e2.1 in
            elim (Bool-cases e1.0.deleted) [
              | inl t ↦
                  let same : e2.0 ≡ rs = some-injective e2.0 rs (rw t at e2.2) in
                  rw (flush_tables, x.1) (rw (e1.1, ◌>>=◌) (rw t (rw (sym same) (later o))))
              | inr f ↦
                  let e3 = some-bind e1.0.cache_hash_set _ rs (rw f at e2.2) in
                  let e4 = some-bind (entry_items (v.kh.end e3.0) 0 e3.0 d) _ rs e3.2 in
                  rw (flush_tables, x.1)
                    (rw (e1.1, ◌>>=◌)
                      (rw f (
                        live-Puts e1.0 d e3.0 e4.0 e2.0 rs o (flush_tables w count (k + 1) d) e3.1
                          e4.1 (some-injective _ rs e4.2) later)))
            ]
      ]

-- `db_index_flush` ends, whatever `write` does as long as it writes at least a byte of what it is
-- given or fails, with the old index in its place or with the rows of all tables and entries that are
-- neither deleted nor being written; where no write fails, with those rows. The temporary file can be
-- opened and renamed, and the memory that the rows are made from is there.
pub index_flush_lem :
    {v : Env} (fails : Bool) (w : Writes) (d : Db v) (f : Files) (rs : List Item)
    → IsWrite fails w
    → index_items (v.kh.end d.tables) 0 d ≡ some rs
    → (f' : Files) × (index_flush true true w d f ≡ some f')
      × ((f'.save ≡ f.save) ⊎ (f'.save ≡ some (text_of rs)))
      × (fails ≡ false → f'.save ≡ some (text_of rs))
unfolding index_flush
index_flush_lem {v} fails w d f rs h e =
    let r =
      flush_tables-Puts fails w h (v.kh.end d.tables) 0 d rs (record { text = []; calls = 0 }) e in
    elim (Bool-cases r.0.0) [
      | inl t ↦ (
        record { temp = none; save = some r.0.1.text },
        rw (index_flush, r.1, ◌>>=◌) (rw t refl),
        inr (ap some (r.2 t)),
        λ u. ap some (r.2 t),
      )
      | inr n ↦ (
        record f { temp = some r.0.1.text },
        rw (index_flush, r.1, ◌>>=◌) (rw n refl),
        inl refl,
        λ u. absurd (false≢true (sym n ∙ r.3 u)),
      )
    ]
