-- ===== src/Db/Tables/Names.antt =====
-- A table that is made, and the search for its name.
use simple_cache.Base.{ℕ, suc, ◌^◌, ◌<◌, ◌≡◌, Option, none, some, List}
use simple_cache.Store.{Ptr}
use simple_cache.HashMap.{IsMap, find}
use simple_cache.Db.{Env, Db}
use simple_cache.Db.Tables.{probe, add_table}
use simple_cache.Db.Tables.Probe.{IsIndexed}

module _ {v : Env} (m : IsMap v.kh) (name : List ℕ) (length : ℕ) (d : Db v) (w : IsIndexed d)
    (t : Ptr) (fresh : d.table_at t ≡ none) (h : ℕ) (short : length < 2 ^ 16)
    (gap : find v.kh d.tables h ≡ none) where
  abbrev added : Db v
  added = add_table t name length h d

  abbrev Follows : ℕ → ℕ → Type 0
  Follows n g =
      probe n name length g d ≡ some (h, none)
      → probe (suc n) name length g added ≡ some (h, some t)
