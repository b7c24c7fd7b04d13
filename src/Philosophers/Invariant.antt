-- ===== src/Philosophers/Invariant.antt =====
-- Who holds which semaphore: true when dinphilo.c starts its threads, kept by every step.
use tpt.Common.{ℕ, ◌+◌, ◌-◌, ◌<◌, ◌≡◌, refl, ◌≢◌, some, ◌==◌, arith, if◌then◌else◌}
use tpt.Common.Family.{update, total, total-update, total-const}
use tpt.Philosophers.{
  Semaphores, Place, thinking, has_left, eating, put_left, finished, right_fork, philosopher,
  System, pick, initialize_semaphores, run_all_threads, Reach, start, later,
}

-- The units of the lock, of the fork at his position and of the fork behind it that he holds.
abbrev pub holds_lock : Place → ℕ
holds_lock thinking = 0
holds_lock finished = 0
holds_lock _ = 1

abbrev pub holds_left : Place → ℕ
holds_left has_left = 1
holds_left eating = 1
holds_left _ = 0

abbrev pub holds_right : Place → ℕ
holds_right eating = 1
holds_right put_left = 1
holds_right _ = 0

-- Each fork is on the table or in the hand of one of its two neighbours; the lock counts the seats.
pub record ForksHeld (n : ℕ) (s : System) : Type 0 where
  pub seats : s.sems.lock + total holds_lock n s.place ≡ n - 1
  pub fork :
      (j : ℕ)
      → j < n
      → s.sems.forks (right_fork n j)
          + holds_left (s.place (right_fork n j))
          + holds_right (s.place j)
        ≡ 1

-- The next position round the table.
pub right_fork_cases : (n i : ℕ) → i < n → right_fork n i ≡ (if i + 1 == n then 0 else i + 1)
unfolding right_fork
right_fork_cases n i h = grind arith

pub right_fork-lt : (n i : ℕ) → i < n → right_fork n i < n
right_fork-lt n i h = ground (arith, right_fork_cases n i h)

right_fork-ne : (n i : ℕ) → 1 < n → i < n → right_fork n i ≢ i
right_fork-ne n i two h = ground (arith, right_fork_cases n i h)

right_fork_injective : (n i j : ℕ) → i < n → j < n → right_fork n i ≡ right_fork n j → i ≡ j
right_fork_injective n i j hi hj = ground (arith, right_fork_cases n i hi, right_fork_cases n j hj)

ForksHeld-start : (n : ℕ) → 1 < n → ForksHeld n (run_all_threads (initialize_semaphores n))
ForksHeld-start n two = record {
  seats = omega (arith, total-const holds_lock n 0 (λ _. thinking) (λ i h. refl));
  fork = λ j h. ground (arith, right_fork-lt n j h);
}

module _ {n : ℕ} {s : System} (two : 1 < n) (inv : ForksHeld n s) (i : ℕ) (below : i < n) where
  Move-seats :
      (at p : Place) (m : Semaphores)
      → s.place i ≡ at
      → philosopher n i at s.sems ≡ some (p, m)
      → m.lock + total holds_lock n (update s.place i p) ≡ n - 1
  unfolding philosopher
  Move-seats finished p m here moves = ground arith
  Move-seats at p m here moves =
      ground (arith, inv.seats, total-update holds_lock n s.place i p below)

  Move-fork :
      (at p : Place) (m : Semaphores)
      → s.place i ≡ at
      → philosopher n i at s.sems ≡ some (p, m)
      → (j : ℕ) → j < n
      → m.forks (right_fork n j)
          + holds_left (update s.place i p (right_fork n j))
          + holds_right (update s.place i p j)
        ≡ 1
  unfolding philosopher
  Move-fork finished p m here moves j h = ground arith
  Move-fork at p m here moves j h = ground (
    arith,
    inv.fork j h,
    right_fork-ne n j two h,
    right_fork-ne n i two below,
    right_fork_injective n i j below h,
  )

-- Every reachable state of `n` philosophers, at least two, satisfies the invariant: a fork lies on the
-- table or is held by exactly one of its two neighbours, and the value of `lock` and the philosophers
-- past their `sem_wait(self.lock)` add up to `n - 1`.
pub Reach-ForksHeld : {n k : ℕ} {s : System} → 1 < n → Reach n k s → ForksHeld n s
Reach-ForksHeld {n} two start = ForksHeld-start n two
Reach-ForksHeld two (later {s} r (pick i p m below moves)) = record {
  seats = Move-seats two (Reach-ForksHeld two r) i below (s.place i) p m refl moves;
  fork = Move-fork two (Reach-ForksHeld two r) i below (s.place i) p m refl moves;
}
