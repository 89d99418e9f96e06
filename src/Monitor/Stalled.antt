-- ===== src/Monitor/Stalled.antt =====
-- A monitoring connection that has not taken what it was sent before its next time.
use simple_cache.Base.{ℕ, zero, suc, ◌≡◌, refl, true, false, none, some, List, ◌∷◌, Distinct, ◌>>=◌}
use simple_cache.Monitor.{
  Time, later, Monitoreds, check_one, check_mons, monitoring_check, pop_head, disconnect,
  monitoring_destroy, leave_ends, bridge,
}
use simple_cache.Monitor.Chain.{Cell, node, places, Chain, last-some}
use simple_cache.Monitor.Rounds.{listed, x-other, t-other, at1, rest}

module _ (now : Time) (h : Monitoreds) (c x : Cell) (cs : List Cell) (bytes : List ℕ)
    (closed : List ℕ) (d : Distinct (places (c ∷ x ∷ cs))) (s : Chain h none (c ∷ x ∷ cs))
    (full : c.held.output ≡ some bytes) (started : c.held.is_writing ≡ true) where
  -- The head has been taken off, so that its successor does not point back to it any more.
  check_one-aborts :
      check_one c.at (node c none (some x.at)) now (listed h (c ∷ x ∷ cs) closed) ≡ none
  unfolding check_one pop_head disconnect monitoring_destroy leave_ends bridge
  check_one-aborts =
      let l = last-some x cs in
      let apart = x-other now h closed c x cs l.0 l.1 d s in
      let tail = t-other now h closed c x cs l.0 l.1 d s in
      let here = at1 now h closed c x cs l.0 l.1 d s in
      let behind = rest now h closed c x cs l.0 l.1 d s in
      rw apart (
        rw (s.1.0, ◌>>=◌)
          (rw full (
            rw (here, ◌>>=◌)
              (rw started (rw (apart, l.1) (rw tail (rw here (rw behind.0 refl))))))))

  -- `monitoring_check` aborts, in a build with assertions, at a connection whose time has come, that
  -- has not taken what it was sent before, and that has others behind it in the list: it is taken off
  -- the list before `monitoring_destroy`, which asserts that its successor points back to it.
  pub monitoring_check-aborts :
      (fuel : ℕ)
      → later c.held.scheduled now ≡ false
      → monitoring_check fuel now (listed h (c ∷ x ∷ cs) closed) ≡ none
  unfolding monitoring_check check_mons
  monitoring_check-aborts zero e = refl
  monitoring_check-aborts (suc fuel) e =
      rw (check_mons, s.0, ◌>>=◌) (rw e (rw (check_one-aborts, ◌>>=◌) refl))
