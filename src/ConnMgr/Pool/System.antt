-- ===== src/ConnMgr/Pool/System.antt =====
-- Clients of one pool of conn_mgr_pool.c in any order: each takes a connection, waits for one, or gives one
-- back. The mutex makes each function, between two waits, one step.
use tpt.Common.{ℕ, suc, ◌+◌, ◌<◌, ◌≡◌, ◌≢◌, Bool, true, List, [], ◌∷◌, ◌++◌, ◌==◌, if◌then◌else◌}
use tpt.ConnMgr.Queue.{Ptr, null}
use tpt.ConnMgr.Pool.{Pool, returned, waits, pop_locked, push_locked}

pub record Clients : Type 0 where
  pub pool : Pool
  pub held : List Ptr  -- the connections that clients have
  pub waiting : ℕ  -- the clients in pthread_cond_wait

-- How often a pointer stands in a list.
unfoldable pub count : Ptr → List Ptr → ℕ
count a [] = 0
count a (x ∷ xs) = (if x == a then 1 else 0) + count a xs

-- malloc gives no address that is in use.
abbrev pub IsNew : Ptr → Clients → Type 0
IsNew fresh s = (fresh ≢ null) → count fresh s.pool.queue + count fresh s.held ≡ 0

-- A client has what conn_mgr_pool_pop returned to it; NULL is nothing.
abbrev pub hold : Ptr → List Ptr → List Ptr
hold c held = if c == null then held else c ∷ held

-- `reliable` says that the queue of the pool never fails to allocate an item.
pub data Step (reliable : Bool) (s : Clients) : Clients → Type 0 where
  pop :
      (fresh c : Ptr) (p : Pool)
      → IsNew fresh s
      → pop_locked fresh s.pool ≡ returned c p
      → Step reliable s (record s { pool = p; held = hold c s.held })
  block :
      (fresh : Ptr) (p : Pool)
      → pop_locked fresh s.pool ≡ waits p
      → Step reliable s (record s { pool = p; waiting = s.waiting + 1 })
  wake :
      (fresh c : Ptr) (p : Pool) (left : ℕ)
      → s.waiting ≡ suc left
      → IsNew fresh s
      → pop_locked fresh s.pool ≡ returned c p
      → Step reliable s (record { pool = p; held = hold c s.held; waiting = left })
  wait_on :
      (fresh : Ptr) (p : Pool)
      → 0 < s.waiting
      → pop_locked fresh s.pool ≡ waits p
      → Step reliable s (record s { pool = p })
  push :
      (memory : Bool) (c : Ptr) (before after : List Ptr)
      → (reliable ≡ true → memory ≡ true)
      → s.held ≡ before ++ c ∷ after
      → Step reliable s (record s { pool = push_locked memory s.pool c; held = before ++ after })

-- From a new pool on.
pub data Reach (reliable : Bool) (p : Pool) : Clients → Type 0 where
  start : p.size ≡ 0 → p.queue ≡ [] → Reach reliable p (record { pool = p; held = []; waiting = 0 })
  later : {s t : Clients} → Reach reliable p s → Step reliable s t → Reach reliable p t
