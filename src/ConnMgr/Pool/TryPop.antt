-- ===== src/ConnMgr/Pool/TryPop.antt =====
-- conn_mgr_pool_try_pop returns exactly when a connection is idle.
use tpt.Common.{
  ℕ, zero, suc, ◌+◌, ◌%◌, ◌^◌, ◌≡◌, ◌≢◌, refl, Option, none, some, List, [], ◌∷◌, arith,
}
use tpt.ConnMgr.Queue.{Ptr, null}
use tpt.ConnMgr.Pool.{Pool, Tried, try_locked, pool_try_pop}

try_locked-empty :
    (fuel : ℕ) (fresh : ℕ → Ptr) (k : ℕ) (opened : List Ptr) (p : Pool)
    → p.queue ≡ []
    → try_locked fuel fresh k opened p ≡ none
unfolding try_locked
try_locked-empty zero fresh k opened p e = refl
try_locked-empty (suc fuel) fresh k opened p e = ground (
  arith,
  try_locked-empty fuel fresh (k + 1) (fresh k ∷ opened)
      (record p { size = (p.size + 1) % 2 ^ 32; queue = [] }) refl,
  try_locked-empty fuel fresh k opened (record p { queue = [] }) refl,
)

-- What conn_mgr_pool_try_pop has returned after `fuel` rounds.
abbrev pub tried_of : ℕ → Pool → List Ptr → Option (Tried (Option Pool))
tried_of zero p queue = none
tried_of (suc fuel) p [] = none
tried_of (suc fuel) p (c ∷ rest) =
    some (record { conn = c; opened = []; pool = some (record p { queue = rest }) })

-- When a connection is idle, conn_mgr_pool_try_pop returns the first one in its first round and opens none.
-- When none is idle it never returns, whatever conn_mgr_conn_new returns to it and however many
-- connections the pool may still open: the test of its loop drops each connection that it opens.
pub pool_try_pop-tried_of :
    (fuel : ℕ) (fresh : ℕ → Ptr) (p : Pool) (queue : List Ptr)
    → p.queue ≡ queue
    → ((c : Ptr) (rest : List Ptr) → queue ≡ c ∷ rest → c ≢ null)
    → pool_try_pop fuel fresh (some p) ≡ tried_of fuel p queue
unfolding pool_try_pop
pool_try_pop-tried_of zero fresh p queue e ok = refl
pool_try_pop-tried_of (suc fuel) fresh p [] e ok =
    ground (arith, try_locked-empty (suc fuel) fresh 0 [] p e)
pool_try_pop-tried_of (suc fuel) fresh p (c ∷ rest) e ok = ground (arith, ok c rest refl)
