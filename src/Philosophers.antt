-- ===== src/Philosophers.antt =====
-- src/system/diningphilo/dinphilo.c: `count` threads run `philosopher` over one semaphore for each fork
-- and a semaphore `lock` that lets `count - 1` of them reach for forks. A thread is the place in its
-- body where it stands between two semaphore calls, with the loop, which runs once, unrolled; `think`
-- and `eat` only print. A semaphore is its value: `sem_wait` blocks at 0 (`none`) and takes one,
-- `sem_post` adds one. `System` is the memory that the threads share with the place of each.
pub mod Invariant
pub mod Progress
pub mod Termination
mod Tests
use tpt.Common.{ℕ, zero, suc, ◌+◌, ◌-◌, ◌%◌, ◌<◌, ◌≡◌, Option, none, some, ltb, ◌==◌, if◌then◌else◌}
use tpt.Common.Family.{update}

-- The semaphores of `main`, passed to every thread in its `params_t`.
pub record Semaphores : Type 0 where
  pub lock : ℕ
  pub forks : ℕ → ℕ

-- Where a philosopher stands.
pub data Place : Type 0 where
  thinking : Place  -- before sem_wait(self.lock)
  seated : Place  -- before sem_wait of the fork at his position
  has_left : Place  -- before sem_wait of the fork behind it
  eating : Place  -- before sem_post of the fork at his position
  put_left : Place  -- before sem_post of the fork behind it
  put_both : Place  -- before sem_post(self.lock)
  finished : Place

-- `(self.position + 1) % self.count`
pub right_fork : ℕ → ℕ → ℕ
right_fork count position = (position + 1) % count

abbrev wait_lock : Semaphores → Option Semaphores
wait_lock s = if s.lock == 0 then none else some (record s { lock = s.lock - 1 })

abbrev post_lock : Semaphores → Semaphores
post_lock s = record s { lock = s.lock + 1 }

abbrev wait_fork : ℕ → Semaphores → Option Semaphores
wait_fork f s =
    if s.forks f == 0 then none else some (record s { forks = update s.forks f (s.forks f - 1) })

abbrev post_fork : ℕ → Semaphores → Semaphores
post_fork f s = record s { forks = update s.forks f (s.forks f + 1) }

abbrev then_at : Place → Option Semaphores → Option (Place × Semaphores)
then_at p none = none
then_at p (some s) = some (p, s)

-- The next semaphore call of a thread; `none` if it blocks, or if the thread is at its end.
pub philosopher : (count position : ℕ) → Place → Semaphores → Option (Place × Semaphores)
philosopher count position thinking s = then_at seated (wait_lock s)
philosopher count position seated s = then_at has_left (wait_fork position s)
philosopher count position has_left s = then_at eating (wait_fork (right_fork count position) s)
philosopher count position eating s = some (put_left, post_fork position s)
philosopher count position put_left s = some (put_both, post_fork (right_fork count position) s)
philosopher count position put_both s = some (finished, post_lock s)
philosopher count position finished s = none

pub record System : Type 0 where
  pub sems : Semaphores
  pub place : ℕ → Place

-- Every fork at 1, the lock at one less than the forks.
abbrev pub initialize_semaphores : ℕ → Semaphores
initialize_semaphores num_forks = record {
  lock = num_forks - 1;
  forks = λ i. if ltb i num_forks then 1 else 0;
}

-- The threads that `run_all_threads` starts, each at the head of its body.
abbrev pub run_all_threads : Semaphores → System
run_all_threads s = record { sems = s; place = λ _. thinking }

-- One of the `n` threads, whichever the scheduler picks, makes its next call.
pub data Step (n : ℕ) (s : System) : System → Type 0 where
  pick :
      (i : ℕ) (p : Place) (m : Semaphores)
      → i < n
      → philosopher n i (s.place i) s.sems ≡ some (p, m)
      → Step n s (record { sems = m; place = update s.place i p })

-- What `main` can reach in `k` steps with `n` philosophers.
pub data Reach (n : ℕ) : ℕ → System → Type 0 where
  start : Reach n 0 (run_all_threads (initialize_semaphores n))
  later : {k : ℕ} {s t : System} → Reach n k s → Step n s t → Reach n (suc k) t
