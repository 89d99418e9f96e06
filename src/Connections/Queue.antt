-- ===== src/Connections/Queue.antt =====
-- The queue of accepted sockets is first in, first out.
use simple_cache.Base.{
  ℕ, ◌≡◌, ◌≢◌, refl, subst, sym, ◌∙◌, ap, true, false, Option, none, some, List, [], ◌∷◌, ◌++◌,
  ◌==◌, if◌then◌else◌, is_null, ◌>>=◌, arith, mem, Distinct, ==_self, ==_ne, ==_iff, Bool-cases,
  inl, inr, mem-ne, Distinct-append, not-mem-split,
}
use mathlib.Core.Option.{none-ne-some, some-injective}
use simple_cache.Store.{Ptr}
use simple_cache.Db.{allocate_at, free_at}
use simple_cache.Connections.{
  Ctype, Queued, AcceptQueue, linked, set_next, enqueue, take_item, dequeue, QueueOp, put_op,
  take_op, run_ops,
}

-- An item by its address and what it holds.
pub record Cell : Type 0 where
  pub at : Ptr
  pub sock : ℕ
  pub type : Ctype

abbrev pub first : List Cell → Option Ptr
first [] = none
first (c ∷ cs) = some c.at

abbrev pub last : List Cell → Option Ptr
last [] = none
last (c ∷ []) = some c.at
last (c ∷ x ∷ cs) = last (x ∷ cs)

abbrev pub places : List Cell → List Ptr
places [] = []
places (c ∷ cs) = c.at ∷ places cs

abbrev pub item : Cell → Option Ptr → Queued
item c q = record { client_sock = c.sock; client_type = c.type; next = q }

-- The items stand in memory, each with a pointer to the next.
abbrev pub Chain : (Ptr → Option Queued) → List Cell → Type 0
Chain h [] = Unit {0}
Chain h (c ∷ cs) = (h c.at ≡ some (item c (first cs))) × Chain h cs

pub record IsQueue (s : AcceptQueue) (cs : List Cell) : Type 0 where
  pub chain : Chain s.items cs
  pub head : s.head ≡ first cs
  pub tail : s.tail ≡ last cs
  pub distinct : Distinct (places cs)
  pub only : (q : Ptr) → mem q (places cs) ≡ false → s.items q ≡ none

Chain-frame :
    (h g : Ptr → Option Queued) (cs : List Cell)
    → ((q : Ptr) → mem q (places cs) ≡ true → g q ≡ h q)
    → Chain h cs
    → Chain g cs
Chain-frame h g [] k s = tt
Chain-frame h g (c ∷ cs) k s =
    (k c.at (ground arith) ∙ s.0, Chain-frame h g cs (λ q m. k q (ground arith)) s.1)

-- An address that is not in use is none of the chain's.
Chain-fresh :
    (h : Ptr → Option Queued) (cs : List Cell) (p : Ptr)
    → Chain h cs
    → h p ≡ none
    → mem p (places cs) ≡ false
Chain-fresh h [] p s n = refl
Chain-fresh h (c ∷ cs) p s n =
    let other : p ≢ c.at = λ e. none-ne-some _ (sym n ∙ ap h e ∙ s.0) in
    ground (arith, ==_ne p c.at other, Chain-fresh h cs p s.1 n)

Chain-mem :
    (h : Ptr → Option Queued) (cs : List Cell) (p : Ptr)
    → mem p (places cs) ≡ true
    → Chain h cs
    → (x : Queued) × (h p ≡ some x)
Chain-mem h [] p m s = cc
Chain-mem h (c ∷ cs) p m s = elim (Bool-cases (p == c.at)) [
  | inl t ↦ (item c (first cs), ap h ((==_iff p c.at).0 t) ∙ s.0)
  | inr f ↦ Chain-mem h cs p (ground (arith, m, f)) s.1
]

abbrev pub snoc : List Cell → Cell → List Cell
snoc cs c = cs ++ c ∷ []

last-mem :
    (c : Cell) (cs : List Cell) (t : Ptr) → last (c ∷ cs) ≡ some t → mem t (places (c ∷ cs)) ≡ true
last-mem c [] t e = ground (arith, some-injective c.at t e, ==_self t)
last-mem c (x ∷ cs) t e = ground (arith, last-mem x cs t e)

set_next-same :
    (h : Ptr → Option Queued) (t p : Ptr) (x : Queued)
    → h t ≡ some x
    → set_next t p h t ≡ some (linked p x)
unfolding set_next
set_next-same h t p x e = rw (==_self t, e) refl

set_next-other : (h : Ptr → Option Queued) (t p q : Ptr) → (t == q) ≡ false → set_next t p h q ≡ h q
unfolding set_next
set_next-other h t p q e = rw e refl

-- The last item comes to point to the new one.
Chain-snoc :
    (h : Ptr → Option Queued) (c : Cell) (cs : List Cell) (n : Cell) (t : Ptr)
    → last (c ∷ cs) ≡ some t
    → Distinct (places (c ∷ cs))
    → mem n.at (places (c ∷ cs)) ≡ false
    → h n.at ≡ some (item n none)
    → Chain h (c ∷ cs)
    → Chain (set_next t n.at h) (snoc (c ∷ cs) n)
Chain-snoc h c [] n t l d f k s =
    let e = some-injective c.at t l in
    (
      ap (λ q. set_next q n.at h c.at) (sym e) ∙ set_next-same h c.at n.at (item c none) s.0,
      (set_next-other h t n.at n.at (ground (arith, e, f)) ∙ k, tt),
    )
Chain-snoc h c (x ∷ cs) n t l d f k s =
    let other : (t == c.at) ≡ false =
      ground (arith, last-mem x cs t l, d.0, mem-ne c.at t (places (x ∷ cs))) in
    (
      set_next-other h t n.at c.at other ∙ s.0,
      Chain-snoc h x cs n t l d.1 (ground (arith, f)) k s.1,
    )

last-snoc : (cs : List Cell) (n : Cell) → last (snoc cs n) ≡ some n.at
last-snoc [] n = refl
last-snoc (c ∷ []) n = refl
last-snoc (c ∷ x ∷ cs) n = last-snoc (x ∷ cs) n

places-snoc : (cs : List Cell) (n : Cell) → places (snoc cs n) ≡ places cs ++ n.at ∷ []
places-snoc [] n = refl
places-snoc (c ∷ cs) n = ap (λ t. c.at ∷ t) (places-snoc cs n)

last-some : (c : Cell) (cs : List Cell) → (t : Ptr) × (last (c ∷ cs) ≡ some t)
last-some c [] = (c.at, refl)
last-some c (x ∷ cs) = last-some x cs

outside-snoc :
    (cs : List Cell) (n : Cell) (q : Ptr)
    → mem q (places (snoc cs n)) ≡ false
    → (mem q (places cs) ≡ false) × ((n.at == q) ≡ false)
outside-snoc cs n q m =
    let r = not-mem-split q (places cs) n.at [] (ap (mem q) (sym (places-snoc cs n)) ∙ m) in
    (r.0, ground (arith, r.1))

-- An accepted socket goes to the end of the queue. `malloc` gave memory that was not in use.
pub enqueue_lem :
    (p sock : ℕ) (type : Ctype) (s : AcceptQueue) (cs : List Cell)
    → IsQueue s cs
    → s.items p ≡ none
    → (s' : AcceptQueue) × (enqueue p sock type s ≡ some s')
      × IsQueue s' (snoc cs (record { at = p; sock = sock; type = type }))
unfolding enqueue
enqueue_lem p sock type s [] v n = (
  record {
    items = allocate_at p (item (record { at = p; sock = sock; type = type }) none) s.items;
    head = some p;
    tail = some p;
  },
  rw (enqueue, v.tail) (rw v.head refl),
  record {
    chain = (rw (==_self p) refl, tt);
    head = refl;
    tail = refl;
    distinct = (refl, tt);
    only = λ q m. ground (arith, v.only q, m);
  },
)
enqueue_lem p sock type s (c ∷ cs) v n =
    let new : Cell = record { at = p; sock = sock; type = type } in
    let fresh = Chain-fresh s.items (c ∷ cs) p v.chain n in
    let items = allocate_at p (item new none) s.items in
    let chain =
      Chain-frame s.items items (c ∷ cs)
        (λ q m. ground (arith, mem-ne p q (places (c ∷ cs)) m fresh)) v.chain in
    let t = last-some c cs in
    let there = Chain-mem items (c ∷ cs) t.0 (last-mem c cs t.0 t.1) chain in
    (
      record { items = set_next t.0 p items; head = s.head; tail = some p },
      rw (enqueue, v.tail ∙ t.1) (rw (there.1, ◌>>=◌) refl),
      record {
        chain = Chain-snoc items c cs new t.0 t.1 v.distinct fresh (rw (==_self p) refl) chain;
        head = v.head;
        tail = sym (last-snoc (c ∷ cs) new);
        distinct = subst Distinct (sym (places-snoc (c ∷ cs) new)) (
            Distinct-append (places (c ∷ cs)) (p ∷ []) v.distinct (refl, tt)
              λ q m. ground (arith, mem-ne p q (places (c ∷ cs)) m fresh));
        only = λ q m.
            let out = outside-snoc (c ∷ cs) new q m in
            set_next-other items t.0 p q
              (ground (arith, mem-ne q t.0 (places (c ∷ cs)) (last-mem c cs t.0 t.1) out.0))
            ∙ (rw out.1 (v.only q out.0));
      },
    )

dequeue_empty : (s : AcceptQueue) → IsQueue s [] → dequeue s ≡ some (none, s)
unfolding take_item
dequeue_empty s v = ap (λ h. take_item h s) v.head

tail_after :
    (c : Cell) (cs : List Cell) → (if is_null (first cs) then none else last (c ∷ cs)) ≡ last cs
tail_after c [] = refl
tail_after c (x ∷ cs) = refl

-- The first socket of the queue leaves it, and its memory is freed.
pub dequeue_lem :
    (s : AcceptQueue) (c : Cell) (cs : List Cell)
    → IsQueue s (c ∷ cs)
    → (s' : AcceptQueue) × (dequeue s ≡ some (some (c.sock, c.type), s'))
      × IsQueue s' cs
      × (s'.items c.at ≡ none)
unfolding take_item
dequeue_lem s c cs v = (
  record {
    items = free_at c.at s.items;
    head = first cs;
    tail = if is_null (first cs) then none else s.tail;
  },
  ap (λ h. take_item h s) v.head ∙ (rw (v.chain.0, ◌>>=◌) refl),
  record {
    chain =
        Chain-frame s.items (free_at c.at s.items) cs
          (λ q m. ground (arith, mem-ne c.at q (places cs) m v.distinct.0)) v.chain.1;
    head = refl;
    tail = ap (λ t. if is_null (first cs) then none else t) v.tail ∙ tail_after c cs;
    distinct = v.distinct.1;
    only = λ q m. elim (Bool-cases (c.at == q)) [
      | inl e ↦ rw e refl
      | inr e ↦ rw e (v.only q (ground (arith, m, e)))
    ];
  },
  rw (==_self c.at) refl,
)

-- What a queue that is a list gives for the same operations.
abbrev pub fifo : List QueueOp → List (ℕ × Ctype) → List (Option (ℕ × Ctype))
fifo [] xs = []
fifo (put_op p sock type ∷ ops) xs = fifo ops (xs ++ (sock, type) ∷ [])
fifo (take_op ∷ ops) [] = none ∷ fifo ops []
fifo (take_op ∷ ops) (x ∷ xs) = some x ∷ fifo ops xs

-- `malloc` never returns an address that is in the queue, at `ps`.
abbrev pub Fresh : List QueueOp → List Ptr → Type 0
Fresh [] ps = Unit {0}
Fresh (put_op p sock type ∷ ops) ps = (mem p ps ≡ false) × Fresh ops (ps ++ p ∷ [])
Fresh (take_op ∷ ops) [] = Fresh ops []
Fresh (take_op ∷ ops) (p ∷ ps) = Fresh ops ps

abbrev pub waiting : List Cell → List (ℕ × Ctype)
waiting [] = []
waiting (c ∷ cs) = (c.sock, c.type) ∷ waiting cs

waiting-snoc :
    (cs : List Cell) (n : Cell) → waiting (snoc cs n) ≡ waiting cs ++ (n.sock, n.type) ∷ []
waiting-snoc [] n = refl
waiting-snoc (c ∷ cs) n = ap (λ t. (c.sock, c.type) ∷ t) (waiting-snoc cs n)

-- Whatever the turns of the threads that accept and of the event loop, each socket that is accepted
-- reaches the event loop once, with its type, in the order of the acceptance, and when the queue is
-- empty the loop is told so; no bad pointer is followed. `malloc` never returns an address that is in
-- the queue.
pub run_ops-fifo :
    (ops : List QueueOp) (s : AcceptQueue) (cs : List Cell)
    → Fresh ops (places cs)
    → IsQueue s cs
    → (s' : AcceptQueue) × (rest : List Cell) × (run_ops ops s ≡ some (fifo ops (waiting cs), s'))
      × IsQueue s' rest
unfolding run_ops
run_ops-fifo [] s cs fresh v = (s, cs, refl, v)
run_ops-fifo (put_op p sock type ∷ ops) s cs fresh v =
    let new : Cell = record { at = p; sock = sock; type = type } in
    let e = enqueue_lem p sock type s cs v (v.only p fresh.0) in
    let r =
      run_ops-fifo ops e.0 (snoc cs new) (subst (Fresh ops) (sym (places-snoc cs new)) fresh.1)
        e.2 in
    (
      r.0,
      r.1,
      rw (run_ops, e.1, ◌>>=◌) (r.2 ∙ ap (λ xs. some (fifo ops xs, r.0)) (waiting-snoc cs new)),
      r.3,
    )
run_ops-fifo (take_op ∷ ops) s [] fresh v =
    let r = run_ops-fifo ops s [] fresh v in
    (r.0, r.1, rw (run_ops, dequeue_empty s v, ◌>>=◌) (rw (r.2, ◌>>=◌) refl), r.3)
run_ops-fifo (take_op ∷ ops) s (c ∷ cs) fresh v =
    let d = dequeue_lem s c cs v in
    let r = run_ops-fifo ops d.0 cs fresh d.2 in
    (r.0, r.1, rw (run_ops, d.1, ◌>>=◌) (rw (r.2, ◌>>=◌) refl), r.3)
