-- ===== src/Monitor/Check.antt =====
-- `monitoring_check` as a whole.
use simple_cache.Base.{
  ℕ, suc, ◌≡◌, refl, subst, sym, ◌∙◌, ap, true, false, none, some, List, [], ◌∷◌, ◌++◌,
  append_assoc, append-nil, arith, Distinct, Distinct-append, mem-ne, length, ◌>>=◌,
}
use simple_cache.Monitor.{
  Time, later, Monitoreds, Monitors, check_one, check_mons, check_pending, monitoring_check,
}
use simple_cache.Monitor.Chain.{Cell, node, first, places, snoc, Chain, last-some, places-snoc}
use simple_cache.Monitor.Rounds.{
  listed, notified_cell, IsDue, check_one-alone, alone-Chain, check_one-moved, moved-Chain, alone,
  moved,
}

module _ (now : Time) where
  abbrev pub notified_all : List Cell → List Cell
  notified_all [] = []
  notified_all (c ∷ cs) = notified_cell now c ∷ notified_all cs

  abbrev pub AllDue : List Cell → Type 0
  AllDue [] = Unit {0}
  AllDue (c ∷ cs) = IsDue now c × AllDue cs

  -- The time of the first has not come.
  abbrev pub Waits : List Cell → Type 0
  Waits [] = Unit {0}
  Waits (c ∷ cs) = later c.held.scheduled now ≡ true

  abbrev Round : Monitoreds → Cell → List Cell → List ℕ → Type 0
  Round h c cs closed =
      (h' : Monitoreds) × (check_one c.at (node c none (first cs)) now (listed h (c ∷ cs) closed)
        ≡ some (listed h' (snoc cs (notified_cell now c)) closed))
      × Chain h' none (snoc cs (notified_cell now c))

  round :
      (h : Monitoreds) (c : Cell) (cs : List Cell) (closed : List ℕ)
      → c.held.output ≡ none
      → Distinct (places (c ∷ cs))
      → Chain h none (c ∷ cs)
      → Round h c cs closed
  round h c [] closed e d s =
      (alone now h closed c, check_one-alone now h closed c s e, alone-Chain now h closed c s)
  round h c (x ∷ cs) closed e d s =
      let (t, l) = last-some x cs in
      (
        moved now h closed c x cs t l d s,
        check_one-moved now h closed c x cs t l d s e,
        moved-Chain now h closed c x cs t l d s,
      )

  -- The list stays one of distinct connections.
  rotate-Distinct :
      (c : Cell) (cs : List Cell)
      → Distinct (places (c ∷ cs))
      → Distinct (places (snoc cs (notified_cell now c)))
  rotate-Distinct c cs d = subst Distinct (sym (places-snoc cs (notified_cell now c))) (
      Distinct-append (places cs) (c.at ∷ []) d.1 (refl, tt)
        λ q m. ground (arith, mem-ne c.at q (places cs) m d.0))

  rotated : (xs ys : List Cell) (n : Cell) → snoc (xs ++ ys) n ≡ xs ++ snoc ys n
  rotated xs ys n = append_assoc xs ys (n ∷ [])

  -- A round of the loop, where the time of the head has come.
  check_mons-step :
      (fuel : ℕ) (h : Monitoreds) (c : Cell) (cs : List Cell) (closed : List ℕ) (s : Monitors)
      → h c.at ≡ some (node c none (first cs))
      → later c.held.scheduled now ≡ false
      → check_one c.at (node c none (first cs)) now (listed h (c ∷ cs) closed) ≡ some s
      → check_mons (suc fuel) now (listed h (c ∷ cs) closed) ≡ check_mons fuel now s
  unfolding check_mons
  check_mons-step fuel h c cs closed s at due r = rw (at, ◌>>=◌) (rw (due, r, ◌>>=◌) refl)

  check_mons-rotates :
      (xs ys : List Cell) (h : Monitoreds) (closed : List ℕ)
      → AllDue xs
      → Waits (ys ++ notified_all xs)
      → Distinct (places (xs ++ ys))
      → Chain h none (xs ++ ys)
      → (h' : Monitoreds) × (check_mons (suc (length xs)) now (listed h (xs ++ ys) closed)
          ≡ some (listed h' (ys ++ notified_all xs) closed))
        × Chain h' none (ys ++ notified_all xs)
  unfolding check_mons
  check_mons-rotates [] [] h closed a w d s = (h, refl, tt)
  check_mons-rotates [] (y ∷ ys) h closed a w d s =
      let same = ap (λ t. y ∷ t) (sym (append-nil ys)) in
      (
        h,
        (rw (s.0, ◌>>=◌) (rw w refl)) ∙ ap (λ t. some (listed h t closed)) same,
        subst (Chain h none) same s,
      )
  check_mons-rotates (c ∷ xs) ys h closed a w d s =
      let new = notified_cell now c in
      let r = round h c (xs ++ ys) closed a.0.empty d s in
      let e = rotated xs ys new in
      let order = append_assoc ys (new ∷ []) (notified_all xs) in
      let next =
        check_mons-rotates xs (snoc ys new) r.0 closed a.1 (subst Waits (sym order) w)
          (subst (λ t. Distinct (places t)) e (rotate-Distinct c (xs ++ ys) d))
          (subst (Chain r.0 none) e r.2) in
      (
        next.0,
        check_mons-step (suc (length xs)) h c (xs ++ ys) closed
              (listed r.0 (snoc (xs ++ ys) new) closed) s.0 a.0.due r.1
            ∙ ap (λ t. check_mons (suc (length xs)) now (listed r.0 t closed)) e
            ∙ next.1
            ∙ ap (λ t. some (listed next.0 t closed)) order,
        subst (Chain next.0 none) order next.2,
      )

  notified-Waits : (c : Cell) (cs : List Cell) → Waits (notified_all (c ∷ cs))
  notified-Waits c cs = ground arith

  all-Waits : (xs ys : List Cell) → Waits ys → Waits (ys ++ notified_all xs)
  all-Waits [] [] w = tt
  all-Waits (c ∷ xs) [] w = notified-Waits c xs
  all-Waits xs (y ∷ ys) w = w

  -- `monitoring_check` ends, after one round more than there are connections whose time has come. These,
  -- at the front of the list, have their next count to write, are scheduled again and go to the end in
  -- their order, behind the others, which stay as they are. Each of them has taken what it was sent
  -- before, the connection behind them has still to wait, and none is pending.
  pub monitoring_check_lem :
      (xs ys : List Cell) (h : Monitoreds) (closed : List ℕ)
      → AllDue xs
      → Waits ys
      → Distinct (places (xs ++ ys))
      → Chain h none (xs ++ ys)
      → (h' : Monitoreds) × (monitoring_check (suc (length xs)) now (listed h (xs ++ ys) closed)
          ≡ some (listed h' (ys ++ notified_all xs) closed))
        × Chain h' none (ys ++ notified_all xs)
  unfolding monitoring_check check_pending
  monitoring_check_lem xs ys h closed a w d s =
      let r = check_mons-rotates xs ys h closed a (all-Waits xs ys w) d s in
      (r.0, rw (r.1, ◌>>=◌) (pending (length xs) r.0), r.2)
    where
      pending :
          (n : ℕ) (h' : Monitoreds)
          → check_pending (suc n) now (listed h' (ys ++ notified_all xs) closed)
            ≡ some (listed h' (ys ++ notified_all xs) closed)
      pending n h' = refl
