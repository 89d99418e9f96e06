-- ===== src/Connections/Members.antt =====
-- The set of connections.
use simple_cache.Base.{
  ℕ, ◌≡◌, refl, ap, true, false, none, some, List, [], ◌∷◌, ◌==◌, ◌>>=◌, arith, mem, ==_self,
  Bool-cases, inl, inr, sym, ◌∙◌, ==_iff,
}
use simple_cache.Store.{Ptr}
use simple_cache.Db.{allocate_at, free_at}
use simple_cache.Connections.{
  Ctype, Pool, new_slot, insert, connection_add, erase, connection_remove, create_connection,
}

erase-absent : (p : Ptr) (qs : List Ptr) → mem p qs ≡ false → erase p qs ≡ qs
unfolding erase
erase-absent p [] m = refl
erase-absent p (q ∷ qs) m =
    rw (erase, other) (ap (λ t. q ∷ t) (erase-absent p qs (ground (arith, m))))
  where
    other : (q == p) ≡ false
    other = ground (arith, m)

erase-first : (p : Ptr) (qs : List Ptr) → mem p qs ≡ false → erase p (p ∷ qs) ≡ qs
unfolding erase
erase-first p qs m = rw (erase, ==_self p) (erase-absent p qs m)

-- A connection that is created, where epoll can be told of it, and removed leaves the set and the
-- memory of connections as they were,
-- and its socket closed, once. `malloc` gave memory that was not in use.
pub create_connection-connection_remove :
    (p : Ptr) (sock : ℕ) (type : Ctype) (s : Pool)
    → s.slots p ≡ none
    → mem p s.connections ≡ false
    → (s1 s2 : Pool) × (create_connection true p sock type s ≡ some (true, s1))
      × (mem p s1.connections ≡ true)
      × (connection_remove p s1 ≡ some s2)
      × (s2.connections ≡ s.connections)
      × ((q : Ptr) → s2.slots q ≡ s.slots q)
      × (s2.closed ≡ sock ∷ s.closed)
unfolding create_connection connection_add connection_remove
create_connection-connection_remove p sock type s free new = (
  s1,
  record {
    slots = free_at p s1.slots;
    connections = erase p s1.connections;
    closed = sock ∷ s.closed;
  },
  rw (create_connection, connection_add, ==_self p, ◌>>=◌) refl,
  rw new (rw (==_self p) refl),
  rw (connection_remove, ==_self p, ◌>>=◌) refl,
  ap (erase p) inserted ∙ erase-first p s.connections new,
  λ q. elim (Bool-cases (p == q)) [
    | inl e ↦ rw e (sym free ∙ ap s.slots ((==_iff p q).0 e))
    | inr e ↦ rw e refl
  ],
  refl,
)
  where
    inserted : insert p s.connections ≡ p ∷ s.connections
    inserted = rw new refl

    s1 : Pool
    s1 = record s {
      slots =
          allocate_at p (new_slot sock type true)
            (allocate_at p (new_slot sock type false) s.slots);
      connections = insert p s.connections;
    }
