-- ===== src/Examples/Sockets.antt =====
-- Sockets on their way from the accept threads to the lists of monitoring connections.
use simple_cache.Base.{
  ℕ, ◌≡◌, refl, true, false, Option, none, some, List, [], ◌∷◌, ◌==◌, if◌then◌else◌, arith, negsuc,
}
use simple_cache.Store.{Ptr}
use simple_cache.Connections.{Ctype, AcceptQueue, QueueOp, put_op, take_op, run_ops}
use simple_cache.Connections.Queue.{Cell, IsQueue, run_ops-fifo}
use simple_cache.Monitor.{
  Time, Monitored, Monitoreds, Monitors, monitoring_pending_add, monitoring_add, check_mons,
  monitoring_check,
}
use simple_cache.Monitor.Chain.{node, Chain}
use simple_cache.Monitor.Rounds.{listed}
use simple_cache.Monitor.Check.{notified_all, monitoring_check_lem}
use simple_cache.Monitor.Add.{added, monitoring_add_lem}
use simple_cache.Monitor.Stalled.{monitoring_check-aborts}
use simple_cache.Monitor.Strings.{itoa, itoa_lem}
use simple_cache.Base.Decimal.{signed_decimal}

abbrev no_items : AcceptQueue
no_items = record { items = λ p. none; head = none; tail = none }

no_items-IsQueue : IsQueue no_items []
no_items-IsQueue = record {
  chain = tt;
  head = refl;
  tail = refl;
  distinct = tt;
  only = λ q m. refl;
}

-- Two sockets; the address of the first is used again once it was freed.
abbrev ops : List QueueOp
ops =
    put_op 8 5 Ctype.cache_connection
    ∷ put_op 9 6 Ctype.mon_connection
    ∷ take_op
    ∷ put_op 8 7 Ctype.mon_connection
    ∷ take_op
    ∷ []

run_ops-fifo_example :
    (s : AcceptQueue) × (rest : List Cell) × (run_ops ops no_items
      ≡ some (some (5, Ctype.cache_connection) ∷ some (6, Ctype.mon_connection) ∷ [], s))
    × IsQueue s rest
run_ops-fifo_example = run_ops-fifo ops no_items [] (refl, (refl, (refl, tt))) no_items-IsQueue

abbrev seconds : ℕ → Time
seconds n = record { sec = n; usec = 0 }

abbrev conn : ℕ → Option (List ℕ) → Monitored
conn at output = record {
  prev = none;
  next = none;
  scheduled = seconds at;
  current = 7;
  is_writing = true;
  output = output;
  sock = 20;
  epollin = true;
  epollout = false;
}

abbrev cell : Ptr → ℕ → Option (List ℕ) → simple_cache.Monitor.Chain.Cell
cell p at output = record { at = p; held = conn at output }

abbrev memory : Monitoreds
memory p =
    if p == 1
    then some (node (cell 1 10 none) none (some 2))
    else if p == 2
    then some (node (cell 2 14 none) (some 1) none)
    else if p == 3
    then some (conn 0 none)
    else none

memory-Chain : Chain memory none (cell 1 10 none ∷ cell 2 14 none ∷ [])
memory-Chain = (refl, (refl, tt))

monitoring_check_lem_example :
    (h : Monitoreds) × (monitoring_check 2
        (seconds 12)
        (listed memory (cell 1 10 none ∷ cell 2 14 none ∷ []) [])
      ≡ some (listed h (cell 2 14 none ∷ notified_all (seconds 12) (cell 1 10 none ∷ [])) []))
    × Chain h none (cell 2 14 none ∷ notified_all (seconds 12) (cell 1 10 none ∷ []))
monitoring_check_lem_example =
    monitoring_check_lem (seconds 12) (cell 1 10 none ∷ []) (cell 2 14 none ∷ []) memory []
      (record { empty = refl; due = refl }, tt) refl (refl, (refl, tt)) memory-Chain

monitoring_add_lem_example :
    (h : Monitoreds) × (monitoring_add 3
        (seconds 12)
        (listed memory (cell 1 10 none ∷ cell 2 14 none ∷ []) [])
      ≡ some (
          listed h
            (added 3 (seconds 12) memory (conn 0 none) [] refl
              ∷ cell 1 10 none
              ∷ cell 2 14 none
              ∷ [])
            []))
    × Chain h none
        (added 3 (seconds 12) memory (conn 0 none) [] refl ∷ cell 1 10 none ∷ cell 2 14 none ∷ [])
monitoring_add_lem_example =
    monitoring_add_lem 3 (seconds 12) memory (conn 0 none) [] refl
      (cell 1 10 none ∷ cell 2 14 none ∷ []) refl (refl, (refl, tt)) memory-Chain

abbrev full : Option (List ℕ)
full = some (b'7' ∷ [])

abbrev stalled : Monitoreds
stalled p =
    if p == 1
    then some (node (cell 1 10 full) none (some 2))
    else if p == 2
    then some (node (cell 2 14 none) (some 1) none)
    else none

monitoring_check-aborts_example :
    monitoring_check 5 (seconds 15) (listed stalled (cell 1 10 full ∷ cell 2 14 none ∷ []) [])
    ≡ none
monitoring_check-aborts_example =
    monitoring_check-aborts (seconds 15) stalled (cell 1 10 full) (cell 2 14 none) [] (b'7' ∷ []) []
      (refl, (refl, tt)) (refl, (refl, tt)) refl refl 5 refl

itoa_lem_example : itoa (negsuc 41) ≡ signed_decimal (negsuc 41)
itoa_lem_example = itoa_lem (negsuc 41) (omega arith)
