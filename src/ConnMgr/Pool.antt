-- ===== src/ConnMgr/Pool.antt =====
-- src/networking/conn_mgr/conn_mgr_pool.c: a pool that opens up to `max_pool_size` connections and hands
-- them out. The queue of the pool is the list of connection pointers that conn_mgr_queue.c keeps
-- (Queue.Spec); a connection is its pointer. Each function runs under the mutex of the pool, so it is one step;
-- conn_mgr_pool_pop gives the mutex up only in pthread_cond_wait, and is modelled by the round of its loop between two waits.
-- What conn_mgr_conn_new returns is an argument, 0 for NULL.
pub mod System
pub mod Laws
pub mod TryPop
mod Tests
use tpt.Common.{
  ℕ, zero, suc, ◌+◌, ◌%◌, ◌^◌, Bool, true, false, Option, none, some, List, [], ◌∷◌, ltb, ◌==◌,
  if◌then◌else◌,
}
use tpt.Common.{strncpy}
use tpt.ConnMgr.Queue.{Ptr, null}
use tpt.ConnMgr.Queue.Spec.{pop_list, push_list}

-- struct conn_mgr_pool_t, without its mutex and condition variable
pub record Pool : Type 0 where
  pub ip : List ℕ  -- char[16]
  pub port : ℕ
  pub max_pool_size : ℕ  -- uint32_t
  pub size : ℕ  -- uint32_t
  pub connect_timeout : ℕ
  pub queue : List Ptr

-- `none` is NULL; `memory` says whether malloc finds some.
pub pool_new :
    (memory : Bool) → Option (List ℕ) → (port max_pool_size connect_timeout : ℕ) → Option Pool
pool_new memory none port max_size timeout = none
pool_new false (some ip) port max_size timeout = none
pool_new true (some ip) port max_size timeout = some (record {
  ip = strncpy 16 ip;
  port = port;
  max_pool_size = max_size;
  size = 0;
  connect_timeout = timeout;
  queue = [];
})

-- The connections that conn_mgr_conn_destroy is called on, in order.
destroy_loop : ℕ → List Ptr → Option (List Ptr)
destroy_loop zero q = none
destroy_loop (suc fuel) q =
    let (conn, q') = pop_list q in
    if conn == null
    then some []
    else elim (destroy_loop fuel q') [ none ↦ none | some rest ↦ some (conn ∷ rest) ]

pub pool_destroy : (fuel : ℕ) → Option Pool → Option (List Ptr)
unfolding destroy_loop
pool_destroy fuel none = some []
pool_destroy fuel (some p) = destroy_loop fuel p.queue

-- What a round of the loop of conn_mgr_pool_pop comes to.
pub data Round (P : Type 0) : Type 0 where
  returned : (conn : Ptr) → P → Round P
  waits : P → Round P

-- From pthread_mutex_lock, or from the return of pthread_cond_wait, to the return or the next wait.
-- `fresh` is what conn_mgr_conn_new returns if it is called.
pub pop_locked : (fresh : Ptr) → Pool → Round Pool
pop_locked fresh p =
    let (conn, q) = pop_list p.queue in
    if conn == null
    then (if ltb p.size p.max_pool_size
        then (if fresh == null
            then returned null (record p { queue = q })
            else returned fresh (record p { size = (p.size + 1) % 2 ^ 32; queue = q }))
        else waits (record p { queue = q }))
    else returned conn (record p { queue = q })

some_round : Round Pool → Round (Option Pool)
some_round (returned conn p) = returned conn (some p)
some_round (waits p) = waits (some p)

pub pool_pop : (fresh : Ptr) → Option Pool → Round (Option Pool)
unfolding pop_locked some_round
pool_pop fresh none = returned null none
pool_pop fresh (some p) = some_round (pop_locked fresh p)

-- What conn_mgr_pool_try_pop comes to: the connection that it returns, those that it opened on the way,
-- and the pool.
pub record Tried (P : Type 0) : Type 0 where
  pub conn : Ptr
  pub opened : List Ptr
  pub pool : P

-- The loop of conn_mgr_pool_try_pop on fuel; `fresh k` is what the `k`-th call of conn_mgr_conn_new
-- returns. The test of the loop overwrites `conn` by what the queue has.
try_locked : ℕ → (fresh : ℕ → Ptr) → (k : ℕ) → (opened : List Ptr) → Pool → Option (Tried Pool)
try_locked zero fresh k opened p = none
try_locked (suc fuel) fresh k opened p =
    let (conn, q) = pop_list p.queue in
    let opens =
      try_locked fuel fresh (k + 1) (fresh k ∷ opened)
        (record p { size = (p.size + 1) % 2 ^ 32; queue = q }) in
    let spins = try_locked fuel fresh k opened (record p { queue = q }) in
    if conn == null
    then (if ltb p.size p.max_pool_size then opens else spins)
    else some (record { conn = conn; opened = opened; pool = record p { queue = q } })

pub pool_try_pop : (fuel : ℕ) → (fresh : ℕ → Ptr) → Option Pool → Option (Tried (Option Pool))
unfolding try_locked
pool_try_pop fuel fresh none = some (record { conn = null; opened = []; pool = none })
pool_try_pop fuel fresh (some p) = elim (try_locked fuel fresh 0 [] p) [
  | none ↦ none
  | some t ↦ some (record { conn = t.conn; opened = t.opened; pool = some t.pool })
]

-- `memory` says whether the queue can allocate an item.
pub push_locked : (memory : Bool) → Pool → Ptr → Pool
push_locked memory p conn = record p { queue = push_list memory p.queue conn }

pub pool_push : (memory : Bool) → Option Pool → Ptr → Option Pool
unfolding push_locked
pool_push memory none conn = none
pool_push memory (some p) conn = some (push_locked memory p conn)
