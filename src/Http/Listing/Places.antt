-- ===== src/Http/Listing/Places.antt =====
-- The search for the next key of a listing.
use simple_cache.Base.{
  ℕ, zero, suc, ◌+◌, ◌%◌, ◌^◌, ◌≤◌, ◌<◌, ◌≡◌, refl, arith, Option, none, some, ltb, false, ◌==◌,
  ◌>>=◌, ap, ap₂, ◌∙◌,
}
use simple_cache.Store.{Ptr}
use simple_cache.HashMap.{KHash}
use simple_cache.Db.{Env}
use simple_cache.Http.{World, start, limit}
use simple_cache.Http.Listing.{place_entry, find_place, clamp, cells_of, respond_listing}

module _ (kh : KHash) (m : kh.Map) where
  place-inside :
      (i : ℕ) (x : Option ℕ) → i < kh.end m → kh.value m i ≡ x → place_entry kh m i ≡ some x
  unfolding place_entry
  place-inside i x h e = ground arith

  place-outside : (i : ℕ) → kh.end m ≤ i → place_entry kh m i ≡ none
  unfolding place_entry
  place-outside i h = ground arith

  find_place-outside : (i l : ℕ) → kh.end m ≤ i → find_place kh m i l ≡ none
  unfolding find_place
  find_place-outside zero zero h = rw (place-outside 0 h) refl
  find_place-outside (suc i) zero h = rw (place-outside (suc i) h) refl
  find_place-outside zero (suc l) h = rw (place-outside 0 h) refl
  find_place-outside (suc i) (suc l) h = rw (place-outside (i + 1) (omega arith)) refl

  at_suc : (i : ℕ) (x : Option ℕ) → kh.value m (suc i) ≡ x → kh.value m (i + 1) ≡ x
  at_suc i x e = ap (kh.value m) (omega arith) ∙ e

  -- An entry ends the search with what is left of the limit.
  hit :
      (i l : ℕ) (p : Ptr)
      → i < kh.end m
      → kh.value m i ≡ some p
      → find_place kh m i l ≡ some (some (p, l))
  unfolding find_place
  hit zero zero p h e = rw (place-inside 0 (some p) h e) refl
  hit (suc i) zero p h e = rw (place-inside (suc i) (some p) h e) refl
  hit zero (suc l) p h e =
      rw (place-inside 0 (some p) h e) (ap (λ t. some (some (p, t))) (omega arith))
  hit (suc i) (suc l) p h e =
      rw (place-inside (i + 1) (some p) (omega arith) (at_suc i (some p) e))
        (ap (λ t. some (some (p, t))) (omega arith))

  -- An empty place is passed over.
  miss :
      (i l : ℕ)
      → suc i < kh.end m
      → kh.value m (suc i) ≡ none
      → find_place kh m (suc i) (suc l) ≡ find_place kh m i l
  unfolding find_place
  miss i l h e = rw (place-inside (i + 1) none (omega arith) (at_suc i none e)) refl

  -- The search from the place `j + i` of the table down, all places above `i` being empty, finds
  -- the entry at `i` if the limit is `j` at least, and leaves what it has more.
  pub find_place-first :
      (j i l : ℕ) (p : Ptr)
      → j + i < kh.end m
      → ((k : ℕ) → i < k → k ≤ j + i → kh.value m k ≡ none)
      → kh.value m i ≡ some p
      → find_place kh m (j + i) (j + l) ≡ some (some (p, l))
  find_place-first zero i l p h q e =
      ap₂ (find_place kh m) (omega arith) (omega arith) ∙ hit i l p (omega arith) e
  find_place-first (suc j) i l p h q e =
      ap₂ (find_place kh m) (omega arith) (omega arith)
      ∙ miss (j + i) (j + l) (omega arith) (q (suc (j + i)) (omega arith) (omega arith))
      ∙ find_place-first j i l p (omega arith) (λ k a b. q k a (omega arith)) e

clamp_fits : (end s l : ℕ) → l + s ≡ end → end < 2 ^ 32 → clamp end s l ≡ (s, l)
unfolding clamp
clamp_fits end s l e b = rw (first, second) refl
  where
    first : ltb end s ≡ false
    first = ground arith

    second : ltb end ((l + s) % 2 ^ 32) ≡ false
    second = ground arith

module _ {v : Env} where
  -- A listing whose start and limit add up to the number of the table's places begins at the place
  -- after the last, and so reads outside the table. The limit is not 0.
  pub respond_listing_outside :
      (w : World v) (m : v.kh.Map)
      → cells_of w ≡ some m
      → 0 < limit w.conn.target
      → limit w.conn.target + start w.conn.target ≡ v.kh.end m
      → v.kh.end m < 2 ^ 32
      → respond_listing w ≡ none
  unfolding respond_listing
  respond_listing_outside w m c l e b =
      rw (c, ◌>>=◌)
        (rw (clamp_fits (v.kh.end m) (start w.conn.target) (limit w.conn.target) e b, not_zero)
          (rw (find_place-outside v.kh m _ (limit w.conn.target) outside) refl))
    where
      not_zero : (limit w.conn.target == 0) ≡ false
      not_zero = ground arith

      outside : v.kh.end m ≤ (limit w.conn.target + start w.conn.target) % 2 ^ 32
      outside = omega arith
