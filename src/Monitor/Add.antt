-- ===== src/Monitor/Add.antt =====
-- `monitoring_add`.
use simple_cache.Base.{
  ℕ, ◌≡◌, refl, ◌∙◌, false, none, some, List, [], ◌∷◌, ◌==◌, arith, mem, Distinct, ◌>>=◌,
}
use simple_cache.Store.{Ptr}
use simple_cache.Monitor.{
  Time, Monitored, Monitoreds, change, cleared, set_prev, set_next, leave_pending, push_head,
  monitoring_add,
}
use simple_cache.Monitor.Chain.{
  Cell, places, Chain, change-same, change-other, Chain-outside, Chain-set_prev, last-some,
}
use simple_cache.Monitor.Rounds.{listed}

module _ (p : Ptr) (now : Time) (h : Monitoreds) (x : Monitored) (closed : List ℕ)
    (at : h p ≡ some x) where
  -- What is added: its counts begin at 0, and its time has come.
  abbrev pub added : Cell
  added = record { at = p; held = record x { scheduled = now; current = 0 } }

  abbrev h1 : Monitoreds
  h1 = change p (cleared now) h

  at1 : h1 p ≡ some (cleared now x)
  at1 = change-same p (cleared now) h x at

  Adds : List Cell → Type 0
  Adds cs =
      (h' : Monitoreds) × (monitoring_add p now (listed h cs closed)
        ≡ some (listed h' (added ∷ cs) closed))
      × Chain h' none (added ∷ cs)

  add-empty : Adds []
  unfolding Adds monitoring_add leave_pending push_head
  add-empty = (h1, rw (at, ◌>>=◌) (rw (at1, ◌>>=◌) refl), (at1, tt))

  module _ (c : Cell) (cs : List Cell) (new : mem p (places (c ∷ cs)) ≡ false)
      (d : Distinct (places (c ∷ cs))) (s : Chain h none (c ∷ cs)) where
    abbrev h2 : Monitoreds
    h2 = change c.at (set_prev (some p)) h1

    abbrev h3 : Monitoreds
    h3 = change p (set_next (some c.at)) h2

    apart : (c.at == p) ≡ false
    apart = ground (arith, new)

    chain1 : Chain h1 none (c ∷ cs)
    chain1 = Chain-outside h none (c ∷ cs) p (cleared now) new s

    at2 : h2 p ≡ some (cleared now x)
    at2 = change-other c.at (set_prev (some p)) h1 p apart ∙ at1

    add-more : Adds (c ∷ cs)
    unfolding Adds monitoring_add leave_pending push_head
    add-more =
        let (t, l) = last-some c cs in
        (
          h3,
          rw (at, ◌>>=◌) (rw (at1, l, ◌>>=◌) (rw (chain1.0, ◌>>=◌) (rw (at2, ◌>>=◌) refl))),
          (
            change-same p (set_next (some c.at)) h2 (cleared now x) at2,
            Chain-outside h2 (some p) (c ∷ cs) p (set_next (some c.at)) new
                (Chain-set_prev h1 none (some p) c cs d.0 chain1),
          ),
        )

  -- `monitoring_add` puts a connection that is in no list at the head of the list, where it is the next
  -- to be sent a count, the first being 0, and keeps the others in their order; no assertion fails. None
  -- is pending.
  pub monitoring_add_lem :
      (cs : List Cell)
      → mem p (places cs) ≡ false
      → Distinct (places cs)
      → Chain h none cs
      → (h' : Monitoreds) × (monitoring_add p now (listed h cs closed)
          ≡ some (listed h' (added ∷ cs) closed))
        × Chain h' none (added ∷ cs)
  unfolding Adds
  monitoring_add_lem [] n d s = add-empty
  monitoring_add_lem (c ∷ cs) n d s = add-more c cs n d s
