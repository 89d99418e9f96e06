-- ===== src/Monitor/Rounds.antt =====
-- The rounds of `monitoring_check` over the connections whose time has come.
use simple_cache.Base.{
  ℕ, ◌≡◌, refl, subst, sym, ◌∙◌, ap, true, false, none, some, List, [], ◌∷◌, ◌==◌, if◌then◌else◌,
  arith, mem, mem-ne, Distinct, ==_self, ==_iff, Bool-cases, inl, inr, ◌>>=◌,
}
use mathlib.Core.Option
use mathlib.Core.Option.{none-ne-some, some-injective}
use simple_cache.Store.{Ptr}
use simple_cache.Db.{allocate_at}
use simple_cache.Monitor.{
  Time, later, Monitored, Monitoreds, Monitors, change, set_prev, set_next, notified, move_to_end,
  pop_head, check_one,
}
use simple_cache.Monitor.Chain.{
  Cell, node, first, last, places, snoc, Chain, change-same, change-other, Chain-frame, last-mem,
  last-snoc, Chain-mem, Chain-set_prev, Chain-snoc,
}

-- The lists with the connections `cs`, and none that is pending.
abbrev pub listed : Monitoreds → List Cell → List ℕ → Monitors
listed h cs closed = record {
  conns = h;
  mon_head = first cs;
  mon_tail = last cs;
  pending_head = none;
  pending_tail = none;
  closed = closed;
}

abbrev pub notified_cell : Time → Cell → Cell
notified_cell now c = record { at = c.at; held = notified now c.held }

-- A connection that has taken what it was sent before, and whose time has come.
pub record IsDue (now : Time) (c : Cell) : Type 0 where
  pub empty : c.held.output ≡ none
  pub due : later c.held.scheduled now ≡ false

change-agrees :
    (p : Ptr) (f : Monitored → Monitored) (g h : Monitoreds) (q : Ptr)
    → g q ≡ h q
    → change p f g q ≡ change p f h q
unfolding change
change-agrees p f g h q e = ap (λ o. if p == q then Option.map f o else o) e

module _ (now : Time) (h : Monitoreds) (closed : List ℕ) (c : Cell) where
  abbrev pub alone : Monitoreds
  alone = change c.at (notified now) (change c.at (set_prev none) h)

  pub check_one-alone :
      Chain h none (c ∷ [])
      → c.held.output ≡ none
      → check_one c.at (node c none none) now (listed h (c ∷ []) closed)
        ≡ some (listed alone (notified_cell now c ∷ []) closed)
  unfolding check_one pop_head move_to_end
  check_one-alone s e =
      let once = change-same c.at (set_prev none) h (node c none none) s.0 in
      rw e (rw (==_self c.at) (rw (s.0, ◌>>=◌) (rw (once, ◌>>=◌) refl)))

  pub alone-Chain : Chain h none (c ∷ []) → Chain alone none (notified_cell now c ∷ [])
  alone-Chain s = (
    change-same c.at (notified now) _ (node c none none)
        (change-same c.at (set_prev none) h (node c none none) s.0),
    tt,
  )

  module _ (x : Cell) (cs : List Cell) (t : Ptr) (l : last (x ∷ cs) ≡ some t)
      (d : Distinct (places (c ∷ x ∷ cs))) (s : Chain h none (c ∷ x ∷ cs)) where
    abbrev pub h1 : Monitoreds
    h1 = change x.at (set_prev none) h

    abbrev h2 : Monitoreds
    h2 = change t (set_next (some c.at)) h1

    abbrev h3 : Monitoreds
    h3 = change c.at (set_prev (some t)) h2

    abbrev pub moved : Monitoreds
    moved = change c.at (notified now) h3

    pub rest : Chain h1 none (x ∷ cs)
    rest = Chain-set_prev h (some c.at) none x cs d.1.0 s.1

    away : mem c.at (places (x ∷ cs)) ≡ false
    away = d.0

    pub t-other : (t == c.at) ≡ false
    t-other = mem-ne c.at t (places (x ∷ cs)) (last-mem x cs t l) away

    pub x-other : (x.at == c.at) ≡ false
    x-other = ground (arith, away)

    pub at1 : h1 c.at ≡ some (node c none (some x.at))
    at1 = change-other x.at (set_prev none) h c.at x-other ∙ s.0

    at2 : h2 c.at ≡ some (node c none (some x.at))
    at2 = change-other t (set_next (some c.at)) h1 c.at t-other ∙ at1

    at3 : h3 c.at ≡ some (node c (some t) (some x.at))
    at3 = change-same c.at (set_prev (some t)) h2 (node c none (some x.at)) at2

    pub check_one-moved :
        c.held.output ≡ none
        → check_one c.at (node c none (some x.at)) now (listed h (c ∷ x ∷ cs) closed)
          ≡ some (listed moved (snoc (x ∷ cs) (notified_cell now c)) closed)
    unfolding check_one pop_head move_to_end
    check_one-moved e =
        let tail = Chain-mem h1 none (x ∷ cs) t (last-mem x cs t l) rest in
        rw x-other (
          rw (s.1.0, ◌>>=◌)
            (rw (e, l)
              (rw (t-other, ◌>>=◌)
                (rw (tail.1, ◌>>=◌)
                  (rw (at2, ◌>>=◌)
                    (rw (at3, ◌>>=◌)
                      (ap
                        (λ z.
                          some (record (listed moved (snoc (x ∷ cs) (notified_cell now c)) closed) {
                            mon_tail = z;
                          }))
                        (sym (last-snoc (x ∷ cs) (notified_cell now c))))))))))

    pub moved-Chain : Chain moved none (snoc (x ∷ cs) (notified_cell now c))
    moved-Chain =
        Chain-frame wanted moved none (snoc (x ∷ cs) new) (λ q m. agree q)
          (Chain-snoc placed none x cs new t l d.1 away (rw (==_self c.at) refl)
            (Chain-frame h1 placed none (x ∷ cs) (λ q m. elsewhere q (apart q m)) rest))
      where
        new : Cell
        new = notified_cell now c

        placed : Monitoreds
        placed = allocate_at c.at (node new (some t) none) h1

        wanted : Monitoreds
        wanted = change t (set_next (some c.at)) placed

        apart : (q : Ptr) → mem q (places (x ∷ cs)) ≡ true → (c.at == q) ≡ false
        apart q m = ground (arith, mem-ne c.at q (places (x ∷ cs)) m away)

        elsewhere : (q : Ptr) → (c.at == q) ≡ false → placed q ≡ h1 q
        elsewhere q f = rw f refl

        here : moved c.at ≡ wanted c.at
        here =
            change-same c.at (notified now) h3 (node c (some t) (some x.at)) at3
            ∙ sym (
                change-other t (set_next (some c.at)) placed c.at t-other
                ∙ (rw (==_self c.at) refl))

        agree : (q : Ptr) → moved q ≡ wanted q
        agree q = elim (Bool-cases (c.at == q)) [
          | inl e ↦ subst (λ r. moved r ≡ wanted r) ((==_iff c.at q).0 e) here
          | inr f ↦
              change-other c.at (notified now) h3 q f
              ∙ change-other c.at (set_prev (some t)) h2 q f
              ∙ change-agrees t (set_next (some c.at)) h1 placed q (sym (elsewhere q f))
        ]
