-- ===== src/Db/Load/Rows.antt =====
-- `getline` takes the text of an index apart into the rows that it was made of.
use simple_cache.Base.{
  ℕ, zero, suc, ◌+◌, ◌/◌, ◌≡◌, refl, sym, ◌∙◌, ap, subst, fun_ext, arith, true, false, Option, none,
  some, ◌||◌, List, [], ◌∷◌, ◌++◌, ltb, ◌==◌, pos, negsuc, ℤ, ◌>>=◌, append_assoc, take, Bool-cases,
  inl, inr,
}
use simple_cache.Base.Decimal.{digits, decimal, signed_decimal}
use simple_cache.Base.Printed.{IsPlain}
use simple_cache.Store.{Ptr, Entry}
use simple_cache.Db.{Env}
use simple_cache.Db.Index.{entry_fields, entry_head}
use simple_cache.Db.Index.Text.{Item, table_item, entry_item, row_of, entry_row, text_of}
use simple_cache.Db.Load.{
  push, rows, Disk, Loading, load_line, load_table, load_entry, load_row, load_rows, scan_entry,
}
use simple_cache.Db.Load.Scans.{
  IsKey, IsSaved, scanned, entry_fields-append, take-length, load_row-table, load_row-line,
  load_line-scanned, scan_entry-fields,
}

-- No newline.
abbrev IsLine : List ℕ → Type 0
IsLine [] = Unit {0}
IsLine (c ∷ cs) = ((c == 10) ≡ false) × IsLine cs

IsLine-append : (xs ys : List ℕ) → IsLine xs → IsLine ys → IsLine (xs ++ ys)
IsLine-append [] ys a b = b
IsLine-append (x ∷ xs) ys a b = (a.0, IsLine-append xs ys a.1 b)

-- The text up to the first newline is a row.
rows-line :
    (body rest : List ℕ)
    → IsLine body
    → rows ((body ++ 10 ∷ []) ++ rest) ≡ (body ++ 10 ∷ []) ∷ rows rest
unfolding rows
rows-line [] rest h = refl
rows-line (c ∷ cs) rest h = rw (rows, h.0) (ap (push c) (rows-line cs rest h.1))

digits-IsLine : (fuel n : ℕ) (rest : List ℕ) → IsLine rest → IsLine (digits fuel n rest)
unfolding digits
digits-IsLine zero n rest h = h
digits-IsLine (suc fuel) n rest h = elim (Bool-cases (ltb n 10)) [
  | inl t ↦ rw (digits, t) (ground arith, h)
  | inr f ↦ rw (digits, f) (digits-IsLine fuel (n / 10) _ (ground arith, h))
]

decimal-IsLine : (n : ℕ) → IsLine (decimal n)
unfolding decimal
decimal-IsLine n = digits-IsLine 20 n [] tt

signed_decimal-IsLine : (z : ℤ) → IsLine (signed_decimal z)
unfolding signed_decimal
signed_decimal-IsLine (pos n) = decimal-IsLine n
signed_decimal-IsLine (negsuc n) = (refl, decimal-IsLine (n + 1))

IsPlain-IsLine : (cs : List ℕ) → IsPlain cs → IsLine cs
IsPlain-IsLine [] h = tt
IsPlain-IsLine (c ∷ cs) h = (ground (arith, h.0), IsPlain-IsLine cs h.2)

IsKey-IsLine : (key : List ℕ) → IsKey key → IsLine key
IsKey-IsLine key k = rw k.parts (IsPlain-IsLine (k.first ∷ k.rest) k.plain)

entry_fields-IsLine : (e : Entry) (r : List ℕ) → IsLine r → IsLine (entry_fields e r)
entry_fields-IsLine e r h = IsLine-append _ _ (signed_decimal-IsLine e.block) (
  refl,
  IsLine-append _ _ (decimal-IsLine e.data_length) (
    refl,
    IsLine-append _ _ (decimal-IsLine e.expires)
        (refl, IsLine-append _ _ (decimal-IsLine e.it) (refl, h)),
  ),
)

abbrev pub IsItem : Item → Type 0
IsItem (table_item name) = IsKey name
IsItem (entry_item e) = IsSaved e

abbrev pub AllItems : List Item → Type 0
AllItems [] = Unit {0}
AllItems (x ∷ xs) = IsItem x × AllItems xs

-- The row of an entry with the byte that its block gives.
abbrev tag : ℤ → ℕ
tag z = elim z [ pos n ↦ b'b' | negsuc n ↦ b'e' ]

take-key : (e : Entry) → IsSaved e → take e.key_length e.key ≡ e.key
take-key e v = ap (λ n. take n e.key) v.whole ∙ take-length e.key

entry_row-fields :
    (e : Entry) → IsSaved e → entry_row e ≡ tag e.block ∷ b':' ∷ entry_fields e (e.key ++ 10 ∷ [])
unfolding entry_head
entry_row-fields e v =
    ap (λ k. entry_head e ++ (k ++ 10 ∷ [])) (take-key e v)
    ∙ ap (λ t. tag e.block ∷ b':' ∷ t) (entry_fields-append e (e.key ++ 10 ∷ []))

entry_row-line :
    (e : Entry) → IsSaved e → entry_row e ≡ (tag e.block ∷ b':' ∷ entry_fields e e.key) ++ 10 ∷ []
unfolding entry_head
entry_row-line e v =
    ap (λ k. entry_head e ++ (k ++ 10 ∷ [])) (take-key e v)
    ∙ ap (λ t. tag e.block ∷ b':' ∷ t)
        (sym (append_assoc (entry_fields e []) e.key (10 ∷ []))
          ∙ ap (λ t. t ++ 10 ∷ []) (entry_fields-append e e.key))

tag-line : (z : ℤ) → (tag z == 10) ≡ false
tag-line (pos n) = refl
tag-line (negsuc n) = refl

tag-entry : (z : ℤ) → ((tag z == b't') ≡ false) × (((tag z == b'b') || (tag z == b'e')) ≡ true)
tag-entry (pos n) = (refl, refl)
tag-entry (negsuc n) = (refl, refl)

rows-row : (x : Item) (rest : List ℕ) → IsItem x → rows (row_of x ++ rest) ≡ row_of x ∷ rows rest
rows-row (table_item name) rest k =
    rows-line (b't' ∷ b':' ∷ name) rest (refl, (refl, IsKey-IsLine name k))
rows-row (entry_item e) rest v =
    let body = tag e.block ∷ b':' ∷ entry_fields e e.key in
    let line : IsLine body =
      (tag-line e.block, (refl, entry_fields-IsLine e e.key (IsKey-IsLine e.key v.key))) in
    subst (λ r. rows (r ++ rest) ≡ r ∷ rows rest) (sym (entry_row-line e v))
      (rows-line body rest line)

module _ {v : Env} (disk : Disk) where
  -- What a row does, without its text.
  abbrev pub load_saved : Option Ptr → Entry → Loading v → Option (Loading v)
  load_saved none e l = some l
  load_saved (some t) e l = load_entry disk t (scanned e) l

  unfoldable pub load_item : Item → Loading v → Option (Loading v)
  load_item (table_item name) l = load_table disk name l
  load_item (entry_item e) l = load_saved l.table e l

  unfoldable pub load_items : List Item → Loading v → Option (Loading v)
  load_items [] l = some l
  load_items (x ∷ xs) l = do l1 ← load_item x l; load_items xs l1

  load_line-saved :
      (o : Option Ptr) (text : List ℕ) (e : Entry) (l : Loading v)
      → scan_entry text ≡ some (some (scanned e))
      → load_line disk o text l ≡ load_saved o e l
  unfolding load_line
  load_line-saved none text e l s = refl
  load_line-saved (some t) text e l s = load_line-scanned disk l t text (scanned e) s

  load_row-entry :
      (e : Entry) (l : Loading v)
      → IsSaved e
      → load_row disk (entry_row e) l ≡ load_saved l.table e l
  load_row-entry e l v =
      let text = entry_fields e (e.key ++ 10 ∷ []) in
      let scan = scan_entry-fields e v in
      ap (λ r. load_row disk r l) (entry_row-fields e v)
      ∙ load_row-line disk l (tag e.block) text (scanned e) (tag-entry e.block).0
          (tag-entry e.block).1 scan
      ∙ load_line-saved l.table text e l scan

  load_row-item : (x : Item) (l : Loading v) → IsItem x → load_row disk (row_of x) l ≡ load_item x l
  unfolding load_item
  load_row-item (table_item name) l k = load_row-table disk l name k
  load_row-item (entry_item e) l k = load_row-entry e l k

  -- The text of items is loaded as the items themselves are.
  pub load_rows-text_of :
      (xs : List Item) (l : Loading v)
      → AllItems xs
      → load_rows disk (rows (text_of xs)) l ≡ load_items xs l
  unfolding load_rows load_items rows
  load_rows-text_of [] l h = refl
  load_rows-text_of (x ∷ xs) l h = rw (rows-row x (text_of xs) h.0) (
      rw (load_row-item x l h.0)
        (ap (λ k. load_item x l >>= k) (fun_ext λ l1. load_rows-text_of xs l1 h.1)))
