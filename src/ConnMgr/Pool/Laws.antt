-- ===== src/ConnMgr/Pool/Laws.antt =====
-- The pool of conn_mgr_pool.c keeps to its bound and gives no connection to two clients.
use tpt.Common.{
  ℕ, ◌+◌, ◌≤◌, ◌<◌, ◌^◌, ◌≡◌, refl, Bool, true, List, [], ◌∷◌, ◌++◌, length, length-append, arith,
}
use tpt.ConnMgr.Queue.{Ptr, null}
use tpt.ConnMgr.Pool.{Pool, returned, waits, pop_locked, push_locked}
use tpt.ConnMgr.Pool.System.{
  Clients, count, IsNew, hold, Step, pop, block, wake, wait_on, push, Reach, start, later,
}

count-append : (a : Ptr) (xs ys : List Ptr) → count a (xs ++ ys) ≡ count a xs + count a ys
unfolding count
count-append a [] ys = omega arith
count-append a (x ∷ xs) ys = omega (arith, count-append a xs ys)

-- Idle and held connections are different from one another and not NULL, no more than `size`, and that is
-- no more than the bound; where no push fails they are just `size`.
pub record PoolBound (reliable : Bool) (p : Pool) (s : Clients) : Type 0 where
  pub kept : s.pool.max_pool_size ≡ p.max_pool_size
  pub bounded : s.pool.size ≤ s.pool.max_pool_size
  pub counted : length s.pool.queue + length s.held ≤ s.pool.size
  pub exact : reliable ≡ true → length s.pool.queue + length s.held ≡ s.pool.size
  pub single : (a : Ptr) → count a s.pool.queue + count a s.held ≤ 1
  pub given : count null s.pool.queue + count null s.held ≡ 0

module _ {reliable : Bool} {p : Pool} {s : Clients} (small : p.max_pool_size < 2 ^ 32)
    (inv : PoolBound reliable p s) where
  open inv use {kept, bounded, counted, exact, single, given}

  -- The queue is matched, so that a pop computes.
  pop-PoolBound :
      (queue : List Ptr) (fresh c : Ptr) (m : Pool) (w : ℕ)
      → s.pool.queue ≡ queue
      → IsNew fresh s
      → pop_locked fresh (record s.pool { queue = queue }) ≡ returned c m
      → PoolBound reliable p (record { pool = m; held = hold c s.held; waiting = w })
  unfolding pop_locked count
  pop-PoolBound [] fresh c m w q new runs = record {
    kept = ground arith;
    bounded = ground arith;
    counted = ground arith;
    exact = λ r. ground (arith, exact r);
    single = λ a. ground (arith, single a);
    given = ground arith;
  }
  pop-PoolBound (d ∷ queue) fresh c m w q new runs = record {
    kept = ground arith;
    bounded = ground arith;
    counted = ground arith;
    exact = λ r. ground (arith, exact r);
    single = λ a. ground (arith, single a);
    given = ground arith;
  }

  wait-PoolBound :
      (queue : List Ptr) (fresh : Ptr) (m : Pool) (w : ℕ)
      → s.pool.queue ≡ queue
      → pop_locked fresh (record s.pool { queue = queue }) ≡ waits m
      → PoolBound reliable p (record { pool = m; held = s.held; waiting = w })
  unfolding pop_locked count
  wait-PoolBound [] fresh m w q runs = record {
    kept = ground arith;
    bounded = ground arith;
    counted = ground arith;
    exact = λ r. ground (arith, exact r);
    single = λ a. ground (arith, single a);
    given = ground arith;
  }
  wait-PoolBound (d ∷ queue) fresh m w q runs = ground arith

  push-PoolBound :
      (memory : Bool) (c : Ptr) (before after : List Ptr)
      → (reliable ≡ true → memory ≡ true)
      → s.held ≡ before ++ c ∷ after
      → PoolBound reliable p
          (record s { pool = push_locked memory s.pool c; held = before ++ after })
  unfolding push_locked count
  push-PoolBound memory c before after trusted had =
      let before_c = length-append before (c ∷ after) in
      let before_after = length-append before after in
      record {
        kept = kept;
        bounded = bounded;
        counted = ground arith;
        exact = λ r. ground (arith, exact r, trusted r, count-append null before (c ∷ after));
        single = λ a.
            ground
              (arith, single a, count-append a before (c ∷ after), count-append a before after);
        given =
            ground (arith, count-append null before (c ∷ after), count-append null before after);
      }

Step-PoolBound :
    {reliable : Bool} {p : Pool} {s t : Clients}
    → p.max_pool_size < 2 ^ 32
    → PoolBound reliable p s
    → Step reliable s t
    → PoolBound reliable p t
Step-PoolBound {s} small inv (pop fresh c m new runs) =
    pop-PoolBound small inv s.pool.queue fresh c m s.waiting refl new runs
Step-PoolBound {s} small inv (block fresh m runs) =
    wait-PoolBound small inv s.pool.queue fresh m (s.waiting + 1) refl runs
Step-PoolBound {s} small inv (wake fresh c m left some_wait new runs) =
    pop-PoolBound small inv s.pool.queue fresh c m left refl new runs
Step-PoolBound {s} small inv (wait_on fresh m some_wait runs) =
    wait-PoolBound small inv s.pool.queue fresh m s.waiting refl runs
Step-PoolBound small inv (push memory c before after trusted had) =
    push-PoolBound small inv memory c before after trusted had

-- In every state that the clients of a new pool reach by conn_mgr_pool_pop and conn_mgr_pool_push, whatever
-- connections and allocations fail: no connection is idle or held twice, none is NULL, idle and held
-- connections together are at most `size`, and `size` is at most the `max_pool_size` that the pool was made
-- with. Where the queue can always allocate an item, they are exactly `size`.
pub Reach-PoolBound :
    {reliable : Bool} {p : Pool} {s : Clients}
    → p.max_pool_size < 2 ^ 32
    → Reach reliable p s
    → PoolBound reliable p s
unfolding count
Reach-PoolBound {p} small (start none_open nothing) = record {
  kept = refl;
  bounded = omega arith;
  counted = rw nothing (omega arith);
  exact = λ r. rw nothing (omega arith);
  single = λ a. rw nothing (omega arith);
  given = rw nothing (omega arith);
}
Reach-PoolBound small (later r st) = Step-PoolBound small (Reach-PoolBound small r) st

-- Where the queue can always allocate an item, conn_mgr_pool_pop makes a client wait only if clients hold
-- `max_pool_size` connections at that time.
pub pop_waits-full :
    {p : Pool} {s : Clients} (fresh : Ptr) (m : Pool)
    → p.max_pool_size < 2 ^ 32
    → Reach true p s
    → pop_locked fresh s.pool ≡ waits m
    → length s.held ≡ p.max_pool_size
pop_waits-full {p} {s} fresh m small r runs = full s.pool.queue refl runs
  where
    open (Reach-PoolBound small r) use {kept, bounded, exact, given}

    full :
        (queue : List Ptr)
        → s.pool.queue ≡ queue
        → pop_locked fresh (record s.pool { queue = queue }) ≡ waits m
        → length s.held ≡ p.max_pool_size
    full [] q now = unfold pop_locked in ground (arith, kept, bounded, exact refl)
    full (d ∷ queue) q now = unfold pop_locked count in ground (arith, given)
