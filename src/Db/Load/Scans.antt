-- ===== src/Db/Load/Scans.antt =====
-- The rows that `db_index_flush` writes are read back by `db_load_from_save`.
use simple_cache.Base.{
  ℕ, ◌%◌, ◌^◌, ◌<◌, ◌≡◌, refl, sym, ◌∙◌, ap, arith, true, false, ◌||◌, none, some, List, [], ◌∷◌,
  ◌++◌, ltb, ◌==◌, ◌>>=◌, append_assoc, length, take,
}
use simple_cache.Base.Decimal.{decimal, signed_decimal}
use simple_cache.Base.Scan.{scan_word, scan_signed}
use simple_cache.Base.Printed.{
  scan_unsigned-decimal, scan_signed-signed_decimal, word_of, IsInt, int_of-word_of, IsPlain,
  scan_word-plain,
}
use simple_cache.Store.{Ptr, Entry}
use simple_cache.Db.{Env}
use simple_cache.Db.Index.{entry_fields}
use simple_cache.Db.Index.Text.{table_row}
use simple_cache.Db.Load.{
  Scanned, Disk, Loading, fit_buffer, scan_numbers, scan_entry, load_row, load_kind, load_line,
  load_entry, load_table, loaded_entry,
}

-- A key that a row can hold: not empty, without white space and NUL, and short enough for the buffer.
pub record IsKey (key : List ℕ) : Type 0 where
  pub first : ℕ
  pub rest : List ℕ
  pub parts : key ≡ first ∷ rest
  pub plain : IsPlain (first ∷ rest)
  pub short : length key < 2048

-- The fields of an entry are in the range of what a row is read into.
pub record IsSaved (e : Entry) : Type 0 where
  pub key : IsKey e.key
  pub whole : e.key_length ≡ length e.key
  pub block : IsInt e.block
  pub length_u32 : e.data_length < 2 ^ 32
  pub expires_u32 : e.expires < 2 ^ 32
  pub it_u16 : e.it < 2 ^ 16

abbrev pub scanned : Entry → Scanned
scanned e = record {
  block = word_of e.block;
  data_length = e.data_length;
  expires = e.expires;
  it = e.it;
  key = e.key;
}

pub entry_fields-append : (e : Entry) (r : List ℕ) → entry_fields e [] ++ r ≡ entry_fields e r
entry_fields-append e r =
    append_assoc (signed_decimal e.block) _ r
    ∙ ap (λ t. signed_decimal e.block ++ b':' ∷ t)
        (append_assoc (decimal e.data_length) _ r
          ∙ ap (λ t. decimal e.data_length ++ b':' ∷ t)
              (append_assoc (decimal e.expires) _ r
                ∙ ap (λ t. decimal e.expires ++ b':' ∷ t) (append_assoc (decimal e.it) _ r)))

scan_numbers-fields :
    (e : Entry) (r : List ℕ)
    → IsSaved e
    → scan_numbers (entry_fields e r) ≡ some (record (scanned e) { key = [] }, r)
unfolding scan_numbers
scan_numbers-fields e r v =
    let small : e.it < 2 ^ 32 = omega (arith, v.it_u16) in
    rw (scan_numbers, scan_signed-signed_decimal e.block _ v.block, ◌>>=◌)
      (rw (scan_unsigned-decimal e.data_length _ v.length_u32, ◌>>=◌)
        (rw (scan_unsigned-decimal e.expires _ v.expires_u32, ◌>>=◌)
          (rw (scan_unsigned-decimal e.it _ small, ◌>>=◌) refl)))

pub take-length : (xs : List ℕ) → take (length xs) xs ≡ xs
take-length [] = refl
take-length (x ∷ xs) = ap (λ t. x ∷ t) (take-length xs)

scan_key : (key : List ℕ) → IsKey key → fit_buffer (scan_word (key ++ 10 ∷ [])) ≡ some (some key)
unfolding fit_buffer
scan_key key k =
    let s : ltb (length key) 2048 ≡ true = ground (arith, k.short) in
    rw
      (ap (λ x. scan_word (x ++ 10 ∷ [])) k.parts
        ∙ scan_word-plain k.first k.rest k.plain
        ∙ ap some (sym k.parts))
      (rw s refl)

pub scan_entry-fields :
    (e : Entry)
    → IsSaved e
    → scan_entry (entry_fields e (e.key ++ 10 ∷ [])) ≡ some (some (scanned e))
unfolding scan_entry
scan_entry-fields e v =
    rw (scan_entry, scan_numbers-fields e (e.key ++ 10 ∷ []) v) (rw (scan_key e.key v.key) refl)

module _ {v : Env} (disk : Disk) (l : Loading v) where
  -- A row of an entry whose text behind the `:` can be scanned.
  pub load_row-line :
      (c : ℕ) (text : List ℕ) (s : Scanned)
      → (c == b't') ≡ false
      → ((c == b'b') || (c == b'e')) ≡ true
      → scan_entry text ≡ some (some s)
      → load_row disk (c ∷ b':' ∷ text) l ≡ load_line disk l.table text l
  unfolding load_row load_kind scan_entry scan_numbers scan_signed
  load_row-line c [] s n k e = absurd (cc e)
  load_row-line c (y ∷ cs) s n k e = rw (load_row, load_kind, n) (rw k refl)

  pub load_line-scanned :
      (t : Ptr) (text : List ℕ) (s : Scanned)
      → scan_entry text ≡ some (some s)
      → load_line disk (some t) text l ≡ load_entry disk t s l
  unfolding load_line
  load_line-scanned t text s e =
      ap (λ r. r >>= λ o. elim o [ none ↦ some l | some x ↦ load_entry disk t x l ]) e

  -- The row of a table.
  pub load_row-table :
      (name : List ℕ) → IsKey name → load_row disk (table_row name) l ≡ load_table disk name l
  unfolding load_row load_kind
  load_row-table name k =
      ap (λ x. load_row disk (table_row x) l) k.parts
      ∙ ap (λ r. r >>= λ o. elim o [ none ↦ some l | some x ↦ load_table disk x l ])
          (ap (λ x. fit_buffer (scan_word (x ++ 10 ∷ []))) (sym k.parts) ∙ scan_key name k)

-- The entry as it was, with a new place in memory and no links.
abbrev pub restored : Ptr → ℕ → Entry → Entry
restored t h e = record e {
  table = some t;
  hash = h;
  writing = false;
  deleted = false;
  refs = 0;
  lru_next = none;
  lru_prev = none;
  lru_removed = true;
}

pub restored_lem :
    (t : Ptr) (h : ℕ) (e : Entry) → IsSaved e → loaded_entry t h (scanned e) ≡ restored t h e
restored_lem t h e v =
    let n : length e.key % 2 ^ 14 ≡ e.key_length = omega (arith, v.key.short, v.whole) in
    let m : e.it % 2 ^ 16 ≡ e.it = omega (arith, v.it_u16) in
    let b = int_of-word_of e.block v.block in
    λ i. record (restored t h e) { key_length = n i; block = b i; it = m i }
