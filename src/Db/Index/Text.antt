-- ===== src/Db/Index/Text.antt =====
-- The rows of an index, and that a flush writes them.
use simple_cache.Base.{
  ℕ, zero, suc, ◌+◌, ◌≤◌, ◌<◌, ◌≡◌, refl, sym, ◌∙◌, ap, arith, Bool, true, false, ◌||◌, Option,
  none, some, List, [], ◌∷◌, ◌++◌, append-nil, append_assoc, length, take, drop, leb, if◌then◌else◌,
  ◌⊎◌, inl, inr, ◌>>=◌,
}
use mathlib.Core.Bool.{false≢true}
use simple_cache.Store.{Entry}
use simple_cache.Db.{Env, Db}
use simple_cache.Db.Index.{Output, Writes, written, full_write, entry_head}

-- What an index holds: the name of a table, and then its entries.
pub data Item : Type 0 where
  table_item : List ℕ → Item
  entry_item : Entry → Item

-- The row of an entry, and of a table.
abbrev pub entry_row : Entry → List ℕ
entry_row e = entry_head e ++ (take e.key_length e.key ++ 10 ∷ [])

abbrev pub table_row : List ℕ → List ℕ
table_row name = b't' ∷ b':' ∷ (name ++ 10 ∷ [])

abbrev pub row_of : Item → List ℕ
row_of (table_item name) = table_row name
row_of (entry_item e) = entry_row e

abbrev pub text_of : List Item → List ℕ
text_of [] = []
text_of (x ∷ xs) = row_of x ++ text_of xs

pub text_of-append : (xs ys : List Item) → text_of (xs ++ ys) ≡ text_of xs ++ text_of ys
text_of-append [] ys = refl
text_of-append (x ∷ xs) ys =
    ap (λ t. row_of x ++ t) (text_of-append xs ys) ∙ sym (append_assoc (row_of x) _ _)

module _ {v : Env} where
  -- The entries at the places from `k` on, less those that are written or deleted.
  unfoldable pub entry_items : ℕ → ℕ → v.kh.Map → Db v → Option (List Item)
  entry_items zero k m d = some []
  entry_items (suc count) k m d = elim (v.kh.value m k) [
    | none ↦ entry_items count (k + 1) m d
    | some p ↦ do
      e ← d.store.entries p
      rest ← entry_items count (k + 1) m d
      some (if e.writing || e.deleted then rest else entry_item e ∷ rest)
  ]

  -- The tables, each before its entries, less those of deleted tables.
  unfoldable pub index_items : ℕ → ℕ → Db v → Option (List Item)
  index_items zero k d = some []
  index_items (suc count) k d = elim (v.kh.value d.tables k) [
    | none ↦ index_items count (k + 1) d
    | some t ↦ do
      tb ← d.table_at t
      rest ← index_items count (k + 1) d
      elim tb.deleted [
        | true ↦ some rest
        | false ↦ do
          m ← tb.cache_hash_set
          es ← entry_items (v.kh.end m) 0 m d
          some (table_item (take tb.key_length tb.key) ∷ (es ++ rest))
      ]
  ]

-- What is known of `write`: it writes no more than it is given, and at least a byte of it, or it
-- fails, if `fails` allows that.
abbrev pub IsWrite : Bool → Writes → Type 0
IsWrite fails w =
    (k n : ℕ)
    → ((fails ≡ true) × (w k n ≡ none)) ⊎ ((m : ℕ) × (w k n ≡ some m) × (m ≤ n) × (n ≤ 0 ⊎ 1 ≤ m))

-- A step that has a result, that has written `bytes` if it says so, and that says so where writes do
-- not fail.
abbrev pub Puts : Bool → List ℕ → Output → Option (Bool × Output) → Type 0
Puts fails bytes o r =
    (x : Bool × Output) × (r ≡ some x)
    × (x.0 ≡ true → x.1.text ≡ o.text ++ bytes)
    × (fails ≡ false → x.0 ≡ true)

take-drop : (n : ℕ) (xs : List ℕ) → take n xs ++ drop n xs ≡ xs
take-drop zero xs = refl
take-drop (suc n) [] = refl
take-drop (suc n) (x ∷ xs) = ap (λ t. x ∷ t) (take-drop n xs)

length-drop_le : (n : ℕ) (xs : List ℕ) → 1 ≤ n → 1 ≤ length xs → length (drop n xs) < length xs
length-drop_le zero xs l h = absurd (omega arith)
length-drop_le (suc n) [] l h = absurd (omega arith)
length-drop_le (suc zero) (x ∷ xs) l h = omega arith
length-drop_le (suc (suc n)) (x ∷ []) l h = omega arith
length-drop_le (suc (suc n)) (x ∷ y ∷ xs) l h =
    omega (arith, length-drop_le (suc n) (y ∷ xs) (omega arith) (omega arith))

le-drop : (n : ℕ) (xs : List ℕ) → length (drop n xs) ≤ length xs
le-drop zero xs = omega arith
le-drop (suc n) [] = omega arith
le-drop (suc n) (x ∷ xs) = omega (arith, le-drop n xs)

List-cases : (xs : List ℕ) → (xs ≡ []) ⊎ ((c : ℕ) × (cs : List ℕ) × (xs ≡ c ∷ cs))
List-cases [] = inl refl
List-cases (c ∷ cs) = inr (c, cs, refl)

module _ (fails : Bool) (w : Writes) (h : IsWrite fails w) where
  pub full_write-Puts :
      (fuel : ℕ) (bytes : List ℕ) (o : Output)
      → length bytes < fuel
      → Puts fails bytes o (full_write fuel w bytes o)
  unfolding full_write
  full_write-Puts zero bytes o l = absurd (omega arith)
  full_write-Puts (suc fuel) bytes o l = elim (h o.calls (length bytes)) [
    | inl f ↦ (
      (false, record o { calls = o.calls + 1 }),
      rw (full_write, f.1) refl,
      λ t. absurd (false≢true t),
      λ t. absurd (false≢true (sym t ∙ f.0)),
    )
    | inr g ↦
        let m = g.0 in
        let fit : leb m (length bytes) ≡ true = ground (arith, g.2) in
        elim (List-cases (drop m bytes)) [
          | inl e ↦ (
            (true, written (take m bytes) o),
            rw (full_write, g.1) (rw (fit, ◌>>=◌) (rw e refl)),
            λ t.
                ap (λ bs. o.text ++ bs)
                  (sym (append-nil _) ∙ ap (λ ds. take m bytes ++ ds) (sym e) ∙ take-drop m bytes),
            λ t. refl,
          )
          | inr x ↦
              let len = ap length x.2 in
              let some_left : 1 ≤ length bytes = omega (arith, len, le-drop m bytes) in
              let moved : 1 ≤ m = elim g.3 [ inl z ↦ absurd (omega arith) | inr y ↦ y ] in
              let shorter = length-drop_le m bytes moved some_left in
              let rest =
                full_write-Puts fuel (x.0 ∷ x.1) (written (take m bytes) o) (omega (arith, len)) in
              (
                rest.0,
                rw (full_write, g.1) (rw (fit, ◌>>=◌) (rw x.2 rest.1)),
                λ t.
                    rest.2 t
                    ∙ append_assoc o.text (take m bytes) (x.0 ∷ x.1)
                    ∙ ap (λ bs. o.text ++ bs)
                        (ap (λ ds. take m bytes ++ ds) (sym x.2) ∙ take-drop m bytes),
                rest.3,
              )
        ]
  ]
