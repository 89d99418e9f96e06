-- ===== src/Monitor/Pending.antt =====
-- The list of pending connections, as `monitoring_pending_add` makes it.
use simple_cache.Base.{
  ◌≡◌, ◌≢◌, refl, ◌∙◌, false, none, some, [], ◌==◌, arith, ==_self, ==_ne, ◌>>=◌,
}
use simple_cache.Store.{Ptr}
use simple_cache.Monitor.{
  Time, Monitored, Monitoreds, Monitors, change, cleared, set_prev, set_next, leave_pending,
  push_head, monitoring_pending_add, monitoring_add,
}
use simple_cache.Monitor.Chain.{change-same, change-other}

-- No list has a connection.
abbrev pub empty_lists : Monitoreds → Monitors
empty_lists h = record {
  conns = h;
  mon_head = none;
  mon_tail = none;
  pending_head = none;
  pending_tail = none;
  closed = [];
}

-- Of two pending connections the one that came first is added to the other list: its links are cleared
-- before it is taken out, so that the pending list has no tail any more, and the connection that is still
-- pending is not found from there, although it is still the head.
pub monitoring_add_loses :
    (p q : Ptr) (x y : Monitored) (t1 t2 t3 : Time) (h : Monitoreds)
    → h p ≡ some x
    → h q ≡ some y
    → p ≢ q
    → (s1 s2 s3 : Monitors) × (monitoring_pending_add p t1 (empty_lists h) ≡ some s1)
      × (monitoring_pending_add q t2 s1 ≡ some s2)
      × (monitoring_add p t3 s2 ≡ some s3)
      × (s2.pending_tail ≡ some p)
      × (s3.pending_head ≡ some q)
      × (s3.pending_tail ≡ none)
unfolding monitoring_pending_add monitoring_add leave_pending push_head
monitoring_add_loses p q x y t1 t2 t3 h hp hq n = (
  record (empty_lists h1) { pending_head = some p; pending_tail = some p },
  record (empty_lists h4) { pending_head = some q; pending_tail = some p },
  record (empty_lists h5) {
    mon_head = some p;
    mon_tail = some p;
    pending_head = some q;
    pending_tail = none;
  },
  rw (hp, ◌>>=◌) refl,
  rw (at_q1, ◌>>=◌) (rw (at_p2, ◌>>=◌) (rw (at_q3, ◌>>=◌) refl)),
  rw (at_p4, ◌>>=◌) (rw (at_p5, ◌>>=◌) (rw qp (rw (==_self p, ◌>>=◌) refl))),
  refl,
  refl,
  refl,
)
  where
    pq : (p == q) ≡ false
    pq = ==_ne p q n

    qp : (q == p) ≡ false
    qp = ground (arith, pq)

    h1 : Monitoreds
    h1 = change p (cleared t1) h

    h2 : Monitoreds
    h2 = change q (cleared t2) h1

    h3 : Monitoreds
    h3 = change p (set_prev (some q)) h2

    h4 : Monitoreds
    h4 = change q (set_next (some p)) h3

    h5 : Monitoreds
    h5 = change p (cleared t3) h4

    at_q1 : h1 q ≡ some y
    at_q1 = change-other p (cleared t1) h q pq ∙ hq

    at_q2 : h2 q ≡ some (cleared t2 y)
    at_q2 = change-same q (cleared t2) h1 y at_q1

    at_p2 : h2 p ≡ some (cleared t1 x)
    at_p2 = change-other q (cleared t2) h1 p qp ∙ change-same p (cleared t1) h x hp

    at_q3 : h3 q ≡ some (cleared t2 y)
    at_q3 = change-other p (set_prev (some q)) h2 q pq ∙ at_q2

    at_p4 : h4 p ≡ some (set_prev (some q) (cleared t1 x))
    at_p4 =
        change-other q (set_next (some p)) h3 p qp
        ∙ change-same p (set_prev (some q)) h2 (cleared t1 x) at_p2

    at_p5 : h5 p ≡ some (cleared t3 (set_prev (some q) (cleared t1 x)))
    at_p5 = change-same p (cleared t3) h4 (set_prev (some q) (cleared t1 x)) at_p4
