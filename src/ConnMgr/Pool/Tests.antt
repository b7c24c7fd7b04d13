-- ===== src/ConnMgr/Pool/Tests.antt =====
-- A pool of two connections, and the instances of its theorems.
use tpt.Common.{◌+◌, ◌≡◌, refl, true, some, [], ◌∷◌, arith, length}
use tpt.ConnMgr.Pool.{Pool, pool_new, pool_destroy, waits, pop_locked, pool_try_pop}
use tpt.ConnMgr.Pool.System.{Clients, count, pop, Reach, start, later}
use tpt.ConnMgr.Pool.Laws.{PoolBound, Reach-PoolBound, pop_waits-full}
use tpt.ConnMgr.Pool.TryPop.{tried_of, pool_try_pop-tried_of}

abbrev fresh_pool : Pool
fresh_pool = record {
  ip = 49 ∷ 0 ∷ 0 ∷ 0 ∷ 0 ∷ 0 ∷ 0 ∷ 0 ∷ 0 ∷ 0 ∷ 0 ∷ 0 ∷ 0 ∷ 0 ∷ 0 ∷ 0 ∷ [];
  port = 80;
  max_pool_size = 1;
  size = 0;
  connect_timeout = 10;
  queue = [];
}

made : pool_new true (some (49 ∷ [])) 80 1 10 ≡ some fresh_pool
unfolding pool_new
made = refl

abbrev taken : Clients
taken = record { pool = record fresh_pool { size = 1 }; held = 7 ∷ []; waiting = 0 }

one_taken : Reach true fresh_pool taken
unfolding pop_locked count
one_taken = later (start refl refl) (pop 7 7 (record fresh_pool { size = 1 }) (λ ne. refl) refl)

second_waits : pop_locked 8 taken.pool ≡ waits taken.pool
unfolding pop_locked
second_waits = refl

destroys_all : pool_destroy 3 (some (record fresh_pool { queue = 7 ∷ 8 ∷ [] })) ≡ some (7 ∷ 8 ∷ [])
unfolding pool_destroy
destroys_all = refl

Reach-PoolBound_example : PoolBound true fresh_pool taken
Reach-PoolBound_example = Reach-PoolBound (omega arith) one_taken

pop_waits-full_example : length taken.held ≡ 1
unfolding pop_locked
pop_waits-full_example = pop_waits-full 8 taken.pool (omega arith) one_taken refl

pool_try_pop-tried_of_example :
    pool_try_pop 4 (λ k. k + 1) (some fresh_pool) ≡ tried_of 4 fresh_pool []
pool_try_pop-tried_of_example =
    pool_try_pop-tried_of 4 (λ k. k + 1) fresh_pool [] refl (λ c rest e. cc)
