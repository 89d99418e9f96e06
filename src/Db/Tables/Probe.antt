-- ===== src/Db/Tables/Probe.antt =====
-- The search for a table.
use simple_cache.Base.{
  ℕ, zero, suc, ◌+◌, ◌-◌, ◌%◌, ◌^◌, ◌≤◌, ◌<◌, ◌≡◌, ◌≢◌, ◌⊎◌, inl, inr, refl, sym, ◌∙◌, ap, Bool,
  true, false, Option, none, some, List, ◌==◌, arith, Option-cases, ◌>>=◌,
}
use native.Mathlib.Decide.{dec_lt}
use mathlib.Core.Option.{none-ne-some}
use simple_cache.Store.{Ptr}
use simple_cache.HashMap.{KHash, IsMap, find}
use simple_cache.Db.{Env, Table, Db}
use simple_cache.Db.Tables.{other_name, probe, probe_all}

-- One round of the loop.
module _ {v : Env} (d : Db v) (name : List ℕ) (length n g : ℕ) where
  pub probe-none : find v.kh d.tables g ≡ none → probe (suc n) name length g d ≡ some (g, none)
  unfolding probe
  probe-none l = rw (probe, l) refl

  module _ (u : Ptr) (tb : Table v) (l : find v.kh d.tables g ≡ some u) (k : d.table_at u ≡ some tb)
      (i : tb.hash ≡ g) where
    same_hash : (tb.hash == g) ≡ true
    same_hash = ground arith

    pub probe-found :
        other_name tb name length ≡ false → probe (suc n) name length g d ≡ some (g, some u)
    unfolding probe
    probe-found x = rw (probe, l) (rw (k, ◌>>=◌) (rw (same_hash, ◌>>=◌) (rw x refl)))

    pub probe-next :
        other_name tb name length ≡ true
        → probe (suc n) name length g d ≡ probe n name length ((g + 1) % 2 ^ 32) d
    unfolding probe
    probe-next x = rw (probe, l) (rw (k, ◌>>=◌) (rw (same_hash, ◌>>=◌) (rw x refl)))

-- Each table stands under its hash.
pub record IsIndexed {v : Env} (d : Db v) : Type 0 where
  pub named :
      (h t : ℕ)
      → find v.kh d.tables h ≡ some t
      → (tb : Table v) × (d.table_at t ≡ some tb) × (tb.hash ≡ h)

-- The hash after `i` steps.
abbrev pub step : ℕ → ℕ → ℕ
step h i = (h + i) % 2 ^ 32

-- A run of hashes that all lead to tables is no longer than the number of tables.
run-size :
    (kh : KHash) (m : IsMap kh) (h n : ℕ) (t : kh.Map)
    → n ≤ 2 ^ 32
    → ((i : ℕ) → i < n → (x : ℕ) × (find kh t (step h i) ≡ some x))
    → n ≤ kh.size t
run-size kh m h zero t b f = omega arith
run-size kh m h (suc n) t b f =
    let (x, l) = f n (omega arith) in
    let r = run-size kh m h n (kh.del t (kh.get t (step h n))) (omega arith) (λ i s. (
      (f i (omega arith)).0,
      m.find-del_other t (step h n) x (step h i) l (λ e. omega arith) ∙ (f i (omega arith)).1,
    )) in
    omega (arith, m.size-del t (step h n) x l, r)

-- Either the first `n` hashes lead to tables, or one of them does not.
run-or-gap :
    (kh : KHash) (h n : ℕ) (t : kh.Map)
    → ((i : ℕ) → i < n → (x : ℕ) × (find kh t (step h i) ≡ some x))
      ⊎ ((i : ℕ) × (i < n) × (find kh t (step h i) ≡ none))
run-or-gap kh h zero t = inl (λ i s. absurd (omega arith))
run-or-gap kh h (suc n) t = elim (run-or-gap kh h n t) [
  | inr (i, s, g) ↦ inr (i, omega arith, g)
  | inl f ↦ elim (Option-cases (find kh t (step h n))) [
    | inl g ↦ inr (n, omega arith, g)
    | inr (x, l) ↦ inl (λ i s. elim (dec_lt i n) [
      | yes k ↦ f i k
      | no k ↦ (x, ap (λ j. find kh t (step h j)) (omega arith) ∙ l)
    ])
  ]
]

-- What the loop may end with: a hash that leads to no table, or a table of the name under its hash.
abbrev pub Answers : {v : Env} → List ℕ → ℕ → Db v → ℕ → Option Ptr → Type 0
Answers {v} name length d h none = find v.kh d.tables h ≡ none
Answers {v} name length d h (some t) =
    (find v.kh d.tables h ≡ some t)
    × (tb : Table v) × (d.table_at t ≡ some tb)
    × (other_name tb name length ≡ false)

probe-gap :
    {v : Env} (name : List ℕ) (length : ℕ) (d : Db v) (w : IsIndexed d) (n h i : ℕ)
    → h < 2 ^ 32
    → i < n
    → find v.kh d.tables (step h i) ≡ none
    → (h' : ℕ) × (o : Option Ptr) × (probe n name length h d ≡ some (h', o))
      × Answers name length d h' o
probe-gap name length d w zero h i b s g = absurd (omega arith)
probe-gap {v} name length d w (suc n) h i b s g =
    at_hash
      (λ t l.
        probe-gap name length d w n ((h + 1) % 2 ^ 32) (i - 1) (omega arith) (positive t l)
          (ap (find v.kh d.tables) (shift t l) ∙ g))
      (find v.kh d.tables h) refl
  where
    Ends : Type 0
    Ends =
        (h' : ℕ) × (o : Option Ptr) × (probe (suc n) name length h d ≡ some (h', o))
        × Answers name length d h' o

    Next : Type 0
    Next =
        (t : Ptr)
        → find v.kh d.tables h ≡ some t
        → (h' : ℕ) × (o : Option Ptr) × (probe n name length ((h + 1) % 2 ^ 32) d ≡ some (h', o))
          × Answers name length d h' o

    nonzero : (t : Ptr) → find v.kh d.tables h ≡ some t → i ≢ 0
    nonzero t l e = none-ne-some t (sym g ∙ ap (find v.kh d.tables) (omega arith) ∙ l)

    positive : (t : Ptr) → find v.kh d.tables h ≡ some t → i - 1 < n
    positive t l = omega (arith, nonzero t l)

    shift : (t : Ptr) → find v.kh d.tables h ≡ some t → step ((h + 1) % 2 ^ 32) (i - 1) ≡ step h i
    shift t l = omega (arith, nonzero t l)

    at_name :
        Next
        → (t : Ptr) → find v.kh d.tables h ≡ some t
        → (tb : Table v) → d.table_at t ≡ some tb
        → tb.hash ≡ h
        → (o : Bool) → other_name tb name length ≡ o
        → Ends
    at_name next t l tb k e false x =
        (h, some t, probe-found d name length n h t tb l k e x, (l, tb, k, x))
    at_name next t l tb k e true x =
        let r = next t l in (r.0, r.1, probe-next d name length n h t tb l k e x ∙ r.2, r.3)

    at_hash : Next → (o : Option Ptr) → find v.kh d.tables h ≡ o → Ends
    at_hash next none l = (h, none, probe-none d name length n h l, l)
    at_hash next (some t) l =
        let (tb, k, e) = w.named h t l in at_name next t l tb k e (other_name tb name length) refl

-- The search for a table with one round more than there are tables ends without a fault, with a hash
-- that leads to no table, or with a table of the name. Each table stands under its hash, and there are
-- fewer than 2^32 of them.
pub probe_all-Answers :
    {v : Env} (m : IsMap v.kh) (name : List ℕ) (length : ℕ) (d : Db v)
    → IsIndexed d
    → v.hash name length < 2 ^ 32
    → v.kh.size d.tables < 2 ^ 32
    → (h : ℕ) × (o : Option Ptr) × (probe_all name length d ≡ some (h, o))
      × Answers name length d h o
probe_all-Answers {v} m name length d w b s =
    elim (run-or-gap v.kh (v.hash name length) (v.kh.size d.tables + 1) d.tables) [
      | inl f ↦ absurd (
          omega (
            arith,
            run-size v.kh m (v.hash name length) (v.kh.size d.tables + 1) d.tables (omega arith) f,
          ))
      | inr (i, k, g) ↦
          probe-gap name length d w (v.kh.size d.tables + 1) (v.hash name length) i b k g
    ]
