-- ===== src/Db/Lookup/Read.antt =====
-- What `db_entry_get_read` answers.
use simple_cache.Base.{
  ℕ, zero, suc, ◌≡◌, refl, sym, ◌∙◌, ap, true, false, Option, none, some, List, [], ◌∷◌, ◌++◌,
  ◌>>=◌, pos, arith, ==_self, inl, inr, ◌⊎◌,
}
use mathlib.Core.Option
use mathlib.Core.Option.{none-ne-some}
use simple_cache.ReadBuffer.{strncmp, skip}
use simple_cache.Store.{Ptr, Entry, Heap, Store, modify_at, lru_hit}
use simple_cache.Store.Unlink.{data_of, SameData, SameData-modify_both}
use simple_cache.Store.Lru.{IsLru}
use simple_cache.Store.Frame.{with_entries, links-modify_same, IsLru-same_links}
use simple_cache.Store.Insert.{lru_hit_lem}
use simple_cache.HashMap.{find}
use simple_cache.Db.{Env, Table, Db, incr}
use simple_cache.Db.Lookup.{is_expired, other_key, count_get, read_found, entry_get_read}
use simple_cache.Db.Refs.{entry_incref}

pub strncmp_self : (xs : List ℕ) (n : ℕ) → strncmp xs xs n ≡ pos 0
unfolding strncmp
strncmp_self xs zero = refl
strncmp_self xs (suc n) = ground (arith, strncmp_self (skip xs) n)

pub other_key_same :
    (e : Entry) (key : List ℕ) (length : ℕ)
    → e.key ≡ key
    → e.key_length ≡ length
    → other_key e key length ≡ false
other_key_same e key length k l = rw (k, l, ==_self length, strncmp_self key length) refl

-- What makes the entry `e` at `p` the answer for a key.
pub record IsFound {v : Env} (d : Db v) (t : Ptr) (key : List ℕ) (length : ℕ) (p : Ptr) (e : Entry)
    : Type 0 where
  pub tb : Table v
  pub m : v.kh.Map
  pub table : d.table_at t ≡ some tb
  pub map : tb.cache_hash_set ≡ some m
  pub place : find v.kh m (v.hash key length) ≡ some p
  pub entry : d.store.entries p ≡ some e
  pub hash : e.hash ≡ v.hash key length
  pub fresh : is_expired v.now e ≡ false
  pub kept : e.deleted ≡ false

abbrev counted : Entry → Entry
counted e = record e { refs = incr 16 e.refs }

entry-of :
    (h g : Heap) (p : Ptr) (e : Entry)
    → SameData h g
    → h p ≡ some e
    → (e1 : Entry) × (g p ≡ some e1)
entry-of h g p e s l = by_case (g p) refl
  where
    by_case : (o : Option Entry) → g p ≡ o → (e1 : Entry) × (g p ≡ some e1)
    by_case none k =
        absurd (none-ne-some _ (sym (ap (Option.map data_of) k) ∙ s p ∙ ap (Option.map data_of) l))
    by_case (some e1) k = (e1, k)

read-run :
    {v : Env} (d : Db v) (t : Ptr) (key : List ℕ) (length : ℕ) (p : Ptr) (e e1 : Entry) (s : Store)
    → IsFound d t key length p e
    → other_key e key length ≡ false
    → e.writing ≡ false
    → lru_hit p d.store ≡ some s
    → s.entries p ≡ some e1
    → entry_get_read t key length d
      ≡ some
          (some p, record (count_get d) { store = with_entries s (modify_at s.entries p counted) })
unfolding entry_get_read read_found entry_incref
read-run {v} d t key length p e e1 s f k w r l =
    rw (f.table, ◌>>=◌)
      (rw (f.map, ◌>>=◌)
        (rw f.place (
          rw (f.entry, ◌>>=◌)
            (rw (f.hash, ==_self (v.hash key length), ◌>>=◌)
              (rw (f.fresh, f.kept, ◌>>=◌) (rw (k, w) (rw (r, ◌>>=◌) (rw (l, ◌>>=◌) refl))))))))

-- `db_entry_get_read` of a key whose entry is found, has not expired, is not deleted and not being
-- written returns the entry with one reference more, moves it to the end of the LRU list, counts the
-- get, changes no other field of an entry but those of the list, and no assertion of it fails.
pub entry_get_read_hit :
    {v : Env} (d : Db v) (t : Ptr) (key : List ℕ) (length : ℕ) (p : Ptr) (e : Entry)
    (xs ys : List Ptr)
    → IsFound d t key length p e
    → other_key e key length ≡ false
    → e.writing ≡ false
    → IsLru d.store (xs ++ p ∷ ys)
    → (s : Store) × (entry_get_read t key length d
        ≡ some (some p, record (count_get d) { store = s }))
      × IsLru s ((xs ++ ys) ++ p ∷ [])
      × SameData (modify_at d.store.entries p counted) s.entries
entry_get_read_hit {v} d t key length p e xs ys f k w u = after (lru_hit_lem d.store p xs ys u)
  where
    after :
        ((s : Store) × (lru_hit p d.store ≡ some s)
          × IsLru s ((xs ++ ys) ++ p ∷ [])
          × SameData d.store.entries s.entries)
        → (s : Store) × (entry_get_read t key length d
            ≡ some (some p, record (count_get d) { store = s }))
          × IsLru s ((xs ++ ys) ++ p ∷ [])
          × SameData (modify_at d.store.entries p counted) s.entries
    after (s, run, lru, same) =
        let (e1, l) = entry-of d.store.entries s.entries p e same f.entry in
        (
          with_entries s (modify_at s.entries p counted),
          read-run d t key length p e e1 s f k w run l,
          IsLru-same_links s _ _ (links-modify_same s.entries p counted (λ e. refl)) lru,
          SameData-modify_both d.store.entries s.entries p counted counted (λ e. refl) same,
        )

-- `db_entry_get_read` returns nothing and changes nothing where the table has no entry for the
-- hash, or where it has one, not expired and not deleted, with another key.
pub entry_get_read_miss :
    {v : Env} (d : Db v) (t : Ptr) (key : List ℕ) (length : ℕ) (tb : Table v) (m : v.kh.Map)
    → d.table_at t ≡ some tb
    → tb.cache_hash_set ≡ some m
    → (find v.kh m (v.hash key length) ≡ none)
      ⊎ ((p : Ptr) × (e : Entry) × IsFound d t key length p e × (other_key e key length ≡ true))
    → entry_get_read t key length d ≡ some (none, d)
unfolding entry_get_read read_found
entry_get_read_miss d t key length tb m k n (inl h) = rw (k, ◌>>=◌) (rw (n, ◌>>=◌) (rw h refl))
entry_get_read_miss {v} d t key length tb m k n (inr (p, e, f, o)) =
    rw (f.table, ◌>>=◌)
      (rw (f.map, ◌>>=◌)
        (rw f.place (
          rw (f.entry, ◌>>=◌)
            (rw (f.hash, ==_self (v.hash key length), ◌>>=◌)
              (rw (f.fresh, f.kept, ◌>>=◌) (rw o refl))))))
