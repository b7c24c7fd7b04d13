-- ===== src/Philosophers/Termination.antt =====
-- Every schedule of dinphilo.c is finite, and lets every philosopher finish.
use tpt.Common.{ℕ, zero, suc, ◌+◌, ◌-◌, ◌*◌, ◌≤◌, ◌<◌, ◌≡◌, ◌↔◌, refl, ◌⊎◌, inl, inr, some, arith}
use tpt.Common.Family.{total, total-update, total-const, weight-le-total}
use tpt.Philosophers.{
  Semaphores, Place, thinking, seated, has_left, eating, put_left, put_both, finished, philosopher,
  System, Step, pick, Reach, start, later,
}
use tpt.Philosophers.Progress.{CanStep, Reach-no_deadlock}

-- The semaphore calls that a philosopher has before him.
abbrev pub calls_left : Place → ℕ
calls_left thinking = 6
calls_left seated = 5
calls_left has_left = 4
calls_left eating = 3
calls_left put_left = 2
calls_left put_both = 1
calls_left finished = 0

philosopher-calls_left :
    (n i : ℕ) (at p : Place) (s m : Semaphores)
    → philosopher n i at s ≡ some (p, m)
    → calls_left at ≡ suc (calls_left p)
unfolding philosopher
philosopher-calls_left n i finished p s m moves = ground arith
philosopher-calls_left n i at p s m moves = ground arith

Step-total :
    {n : ℕ} {s t : System}
    → Step n s t
    → total calls_left n s.place ≡ suc (total calls_left n t.place)
Step-total {n} {s} (pick i p m below moves) = omega (
  arith,
  total-update calls_left n s.place i p below,
  philosopher-calls_left n i (s.place i) p s.sems m moves,
)

Reach-total : {n k : ℕ} {s : System} → Reach n k s → k + total calls_left n s.place ≡ n * 6
Reach-total {n} start = omega (arith, total-const calls_left n 6 (λ _. thinking) (λ i h. refl))
Reach-total (later r st) = omega (arith, Reach-total r, Step-total st)

calls_left-zero : (p : Place) → calls_left p ≡ 0 → p ≡ finished
calls_left-zero finished e = refl
calls_left-zero p e = absurd (omega arith)

-- A run of `n` philosophers takes at most `6 * n` steps under every schedule, and it has taken
-- `6 * n` exactly when all of them have finished.
pub Reach-bounded :
    {n k : ℕ} {s : System}
    → Reach n k s
    → (k ≤ n * 6) × ((k ≡ n * 6) ↔ ((i : ℕ) → i < n → s.place i ≡ finished))
Reach-bounded {n} {k} {s} r = (omega (arith, Reach-total r), (at_the_end, none_left))
  where
    at_the_end : k ≡ n * 6 → (i : ℕ) → i < n → s.place i ≡ finished
    at_the_end e i below =
        calls_left-zero (s.place i)
          (omega (arith, Reach-total r, weight-le-total calls_left n s.place i below))

    none_left : ((i : ℕ) → i < n → s.place i ≡ finished) → k ≡ n * 6
    none_left all = omega (
      arith,
      Reach-total r,
      total-const calls_left n 0 s.place (λ i below. rw (all i below) refl),
    )

-- The ways on from a state, by their number of steps.
pub data Runs (n : ℕ) : ℕ → System → System → Type 0 where
  here : {s : System} → Runs n 0 s s
  next : {k : ℕ} {s t u : System} → Step n s t → Runs n k t u → Runs n (suc k) s u

-- Some way on of `left` steps ends with all of them finished.
abbrev pub Finishes : ℕ → ℕ → System → Type 0
Finishes n left s = (t : System) × Runs n left s t × ((i : ℕ) → i < n → t.place i ≡ finished)

Finishes-Step :
    {n left k : ℕ} {s : System}
    → 1 < n
    → Reach n k s
    → k + suc left ≡ n * 6
    → ((t : System) → Step n s t → Finishes n left t)
    → Finishes n (suc left) s
Finishes-Step {n} {left} {s} two r e rest = go (Reach-no_deadlock two r)
  where
    go : CanStep n s ⊎ ((i : ℕ) → i < n → s.place i ≡ finished) → Finishes n (suc left) s
    go (inl (t, st)) = let (u, run, all) = rest t st in (u, next st run, all)
    go (inr all) = absurd (omega (arith, (Reach-bounded r).1.1 all))

finishes :
    {n : ℕ} (left k : ℕ) {s : System} → 1 < n → Reach n k s → k + left ≡ n * 6 → Finishes n left s
finishes zero k {s} two r e = (s, here, (Reach-bounded r).1.0 (omega arith))
finishes (suc left) k two r e =
    Finishes-Step two r e (λ t st. finishes left (suc k) two (later r st) (omega arith))

-- From every reachable state of at least two philosophers, `k` steps from the start, the remaining
-- `6 * n - k` steps can be made, and after them all have finished.
pub Reach-Finishes : {n k : ℕ} {s : System} → 1 < n → Reach n k s → Finishes n (n * 6 - k) s
Reach-Finishes {n} {k} two r = finishes (n * 6 - k) k two r (omega (arith, (Reach-bounded r).0))
