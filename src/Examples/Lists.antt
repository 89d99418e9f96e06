-- ===== src/Examples/Lists.antt =====
-- An LRU list of three entries.
use simple_cache.Base.{
  ◌≡◌, refl, Bool, true, false, Option, none, some, [], ◌∷◌, ◌==◌, if◌then◌else◌, pos,
}
use simple_cache.Store.{Ptr, Entry, Store, lru_hit}
use simple_cache.Store.Unlink.{SameData}
use simple_cache.Store.Lru.{IsLru}
use simple_cache.Store.Insert.{lru_hit_lem}

abbrev plain : Option Ptr → Option Ptr → Bool → Entry
plain a b r = record {
  table = none;
  hash = 5;
  key = [];
  key_length = 0;
  writing = false;
  deleted = false;
  refs = 1;
  data_length = 10;
  block = pos 0;
  expires = 0;
  lru_next = b;
  lru_prev = a;
  it = 0;
  lru_removed = r;
}

abbrev three : Store
three = record {
  entries = λ p.
      if p == 1
      then some (plain none (some 2) false)
      else if p == 2
      then some (plain (some 1) (some 3) false)
      else if p == 3
      then some (plain (some 2) none false)
      else if p == 4
      then some (plain none none true)
      else none;
  lru_head = some 1;
  lru_tail = some 3;
}

three-IsLru : IsLru three (1 ∷ 2 ∷ 3 ∷ [])
three-IsLru = record {
  chain = (refl, (refl, (refl, tt)));
  head = refl;
  tail = refl;
  distinct = (refl, (refl, (refl, tt)));
}

lru_hit_lem_example :
    (s' : Store) × (lru_hit 1 three ≡ some s')
    × IsLru s' (2 ∷ 3 ∷ 1 ∷ [])
    × SameData three.entries s'.entries
lru_hit_lem_example = lru_hit_lem three 1 [] (2 ∷ 3 ∷ []) three-IsLru
