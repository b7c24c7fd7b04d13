-- ===== src/Philosophers/Progress.antt =====
-- Neighbours never eat together, and the table never comes to a stop before all have finished.
use tpt.Common.{
  ℕ, zero, suc, ◌+◌, ◌-◌, ◌*◌, ◌<◌, ◌≡◌, refl, ◌≢◌, ◌⊎◌, inl, inr, none, some, arith, ◌==◌,
  Option-cases, if◌then◌else◌,
}
use tpt.Common.Family.{total, total-const, search_below}
use tpt.Philosophers.{
  Semaphores, Place, thinking, seated, has_left, eating, finished, right_fork, philosopher, System,
  Step, pick, Reach,
}
use tpt.Philosophers.Invariant.{
  holds_lock, ForksHeld, Reach-ForksHeld, right_fork_cases, right_fork-lt,
}

-- In every reachable state of at least two philosophers, a philosopher who is eating has a right
-- neighbour who is not, and who does not hold the fork between them.
pub Reach-neighbour_not_eating :
    {n k : ℕ} {s : System}
    → 1 < n
    → Reach n k s
    → (i : ℕ) → i < n
    → s.place i ≡ eating
    → (s.place (right_fork n i) ≢ eating) × (s.place (right_fork n i) ≢ has_left)
Reach-neighbour_not_eating {n} {s} two r i below eats =
    let inv : ForksHeld n s = Reach-ForksHeld two r in
    (λ e. ground (arith, inv.fork i below), λ e. ground (arith, inv.fork i below))

-- The system can make a step.
abbrev pub CanStep : ℕ → System → Type 0
CanStep n s = (t : System) × Step n s t

prev : ℕ → ℕ → ℕ
prev n i = if i == 0 then n - 1 else i - 1

right_fork-prev : (n i : ℕ) → 1 < n → i < n → (prev n i < n) × (right_fork n (prev n i) ≡ i)
unfolding prev
right_fork-prev n i two below = (ground arith, ground (arith, right_fork_cases n (prev n i)))

module _ {n : ℕ} {s : System} (two : 1 < n) (inv : ForksHeld n s)
    (stuck : (i : ℕ) → i < n → philosopher n i (s.place i) s.sems ≡ none) where
  -- The left fork of a blocked philosopher who is seated would be with a neighbour who can move.
  right_not_seated : (i : ℕ) → i < n → s.place (right_fork n i) ≢ seated
  unfolding philosopher
  right_not_seated i below e =
      ground
        (arith, inv.fork i below, stuck i below, stuck (right_fork n i) (right_fork-lt n i below))

  -- Nobody can be eating or putting something back, for then he could move.
  not_seated : (i : ℕ) → i < n → s.place i ≢ seated
  not_seated i below e =
      let (inside, here) = right_fork-prev n i two below in
      right_not_seated (prev n i) inside (rw here e)

  -- A fork that a blocked philosopher waits for is the left fork of one who waits in his turn.
  has_left_right : (i : ℕ) → i < n → s.place i ≡ has_left → s.place (right_fork n i) ≡ has_left
  unfolding philosopher
  has_left_right i below e =
      ground
        (arith, inv.fork i below, stuck i below, stuck (right_fork n i) (right_fork-lt n i below))

  has_left_up : (d i : ℕ) → i + d < n → s.place i ≡ has_left → s.place (i + d) ≡ has_left
  has_left_up zero i below e = let same : i + 0 ≡ i = omega arith in rw same e
  has_left_up (suc d) i below e =
      let next : right_fork n i ≡ i + 1 = ground (arith, right_fork_cases n i) in
      let same : i + suc d ≡ i + 1 + d = omega arith in
      rw same (has_left_up d (i + 1) (omega arith) (rw next at (has_left_right i (omega arith) e)))

  -- Then all of them hold their left fork, more than the lock admits.
  not_has_left : (i : ℕ) → i < n → s.place i ≢ has_left
  not_has_left i below e = absurd (omega (arith, inv.seats, full))
    where
      last : s.place (n - 1) ≡ has_left
      last =
          let same : i + (n - 1 - i) ≡ n - 1 = omega arith in
          rw same at (has_left_up (n - 1 - i) i (omega arith) e)

      first : s.place 0 ≡ has_left
      first =
          let wrap : right_fork n (n - 1) ≡ 0 = ground (arith, right_fork_cases n (n - 1)) in
          rw wrap at (has_left_right (n - 1) (omega arith) last)

      all : (j : ℕ) → j < n → holds_lock (s.place j) ≡ 1
      all j h =
          let same : 0 + j ≡ j = omega arith in
          let here : s.place j ≡ has_left = rw same at (has_left_up j 0 (omega arith) first) in
          rw here refl

      full : total holds_lock n s.place ≡ n * 1
      full = total-const holds_lock n 1 s.place all

  thinking_or_finished : (i : ℕ) → i < n → (s.place i ≡ thinking) ⊎ (s.place i ≡ finished)
  unfolding philosopher
  thinking_or_finished i below =
      ground (arith, stuck i below, not_seated i below, not_has_left i below)

  nobody_holds : total holds_lock n s.place ≡ n * 0
  nobody_holds =
      total-const holds_lock n 0 s.place λ i below. ground (arith, thinking_or_finished i below)

  all_finished : (i : ℕ) → i < n → s.place i ≡ finished
  unfolding philosopher
  all_finished i below =
      ground (arith, thinking_or_finished i below, stuck i below, inv.seats, nobody_holds)

-- No deadlock: in every reachable state of at least two philosophers, some philosopher can make his
-- next semaphore call, or all of them have finished.
pub Reach-no_deadlock :
    {n k : ℕ} {s : System}
    → 1 < n
    → Reach n k s
    → CanStep n s ⊎ ((i : ℕ) → i < n → s.place i ≡ finished)
Reach-no_deadlock {n} {s} two r =
    go (search_below (λ i. Option-cases (philosopher n i (s.place i) s.sems)) n)
  where
    Moves : ℕ → Type 0
    Moves i = (q : Place × Semaphores) × (philosopher n i (s.place i) s.sems ≡ some q)

    go :
        ((i : ℕ) × (i < n) × Moves i)
          ⊎ ((i : ℕ) → i < n → philosopher n i (s.place i) s.sems ≡ none)
        → CanStep n s ⊎ ((i : ℕ) → i < n → s.place i ≡ finished)
    go (inl (i, below, q)) = inl (_, pick i q.0.0 q.0.1 below q.1)
    go (inr stuck) = inr (all_finished two (Reach-ForksHeld two r) stuck)
