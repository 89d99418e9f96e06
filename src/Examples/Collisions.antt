-- ===== src/Examples/Collisions.antt =====
-- Two table names, "tx" and "ty", with the same hash.
use simple_cache.Base.{
  ℕ, ◌≡◌, refl, sym, ◌∙◌, subst, true, Option, none, some, [], ◌∷◌, ◌==◌, if◌then◌else◌, arith,
}
use native.Mathlib.Decide.{ℕ_discrete}
use mathlib.Core.Option.{none-ne-some, some-injective}
use simple_cache.ReadBuffer.{strncmp}
use simple_cache.Store.{Ptr}
use simple_cache.HashMap.{find}
use simple_cache.HashMap.Slots.{slots, slots-IsMap}
use simple_cache.Db.{Table, Db}
use simple_cache.Db.Tables.{new_table, probe_all, table_get_read}
use simple_cache.Db.Tables.Probe.{IsIndexed, Answers, probe_all-Answers}
use simple_cache.Db.Delete.{delete_table_entry}
use simple_cache.Db.Tables.Lost.{delete_table_entry_loses}
use simple_cache.Examples.Database.{world, db}

abbrev tx : Table world
tx = new_table (b't' ∷ b'x' ∷ []) 2 116

abbrev one_table : Db world
one_table = record db {
  table_at = λ t. if t == 7 then some tx else none;
  tables = slots.put slots.init 116 7;
}

one_table-IsIndexed : IsIndexed one_table
one_table-IsIndexed = record { named = named }
  where
    At : ℕ → Ptr → Type 0
    At h t = (tb : Table world) × (one_table.table_at t ≡ some tb) × (tb.hash ≡ h)

    named : (h t : ℕ) → find slots (slots.put slots.init 116 7) h ≡ some t → At h t
    named h t l = elim (ℕ_discrete h 116) [
      | yes e ↦
          subst (At h)
            (some-injective 7 t (
              sym (slots-IsMap.find-put_same slots.init 116 7)
              ∙ subst (λ k. find slots (slots.put slots.init 116 7) k ≡ some t) e l))
            (tx, refl, sym e)
      | no n ↦ absurd (
          none-ne-some t (
            sym (slots-IsMap.find-init h)
            ∙ sym (slots-IsMap.find-put_other slots.init 116 7 h n)
            ∙ l))
    ]

probe_all-Answers_example :
    (h : ℕ) × (o : Option Ptr) × (probe_all (b't' ∷ b'y' ∷ []) 2 one_table ≡ some (h, o))
    × Answers (b't' ∷ b'y' ∷ []) 2 one_table h o
unfolding slots
probe_all-Answers_example =
    probe_all-Answers slots-IsMap (b't' ∷ b'y' ∷ []) 2 one_table one_table-IsIndexed (omega arith)
      (omega arith)

abbrev two_tables : Db world
two_tables = record db {
  table_at = λ t.
      if t == 7
      then some (record tx { refs = 2 })
      else if t == 8
      then some (new_table (b't' ∷ b'y' ∷ []) 2 117)
      else none;
  tables = slots.put (slots.put slots.init 116 7) 117 8;
}

delete_table_entry_loses_example :
    (d' : Db world) × (probe_all (b't' ∷ b'y' ∷ []) 2 two_tables ≡ some (117, some 8))
    × (delete_table_entry 7 (slots.get two_tables.tables 116) true two_tables ≡ some d')
    × (find slots d'.tables 117 ≡ some 8)
    × (table_get_read (b't' ∷ b'y' ∷ []) 2 d' ≡ some (none, d'))
unfolding slots strncmp
delete_table_entry_loses_example =
    delete_table_entry_loses slots-IsMap (b't' ∷ b'y' ∷ []) 2 two_tables 7 8
      (record tx { refs = 2 }) (new_table (b't' ∷ b'y' ∷ []) 2 117) slots.init refl refl refl refl
      refl refl refl refl refl (omega arith) (omega arith)
