-- ===== src/Philosophers/Tests.antt =====
-- dinphilo.c with its five philosophers along one schedule, and the instances of the theorems there.
use tpt.Common.{ℕ, ◌<◌, ◌≡◌, ◌≢◌, refl, ◌⊎◌, none, arith}
use tpt.Common.Family.{update}
use tpt.Philosophers.{
  seated, has_left, eating, finished, right_fork, philosopher, System, pick, Reach, start, later,
  initialize_semaphores, run_all_threads,
}
use tpt.Philosophers.Progress.{CanStep, Reach-neighbour_not_eating, Reach-no_deadlock}
use tpt.Philosophers.Termination.{Finishes, Reach-Finishes}

abbrev five : System
five = run_all_threads (initialize_semaphores 5)

-- Philosopher 0 has taken his seat and both forks.
abbrev after_seat : System
after_seat = record {
  sems = record { lock = 3; forks = five.sems.forks };
  place = update five.place 0 seated;
}

abbrev after_left : System
after_left = record {
  sems = record { lock = 3; forks = update five.sems.forks 0 0 };
  place = update after_seat.place 0 has_left;
}

abbrev after_right : System
after_right = record {
  sems = record { lock = 3; forks = update after_left.sems.forks 1 0 };
  place = update after_left.place 0 eating;
}

zero_eats : Reach 5 3 after_right
unfolding philosopher right_fork
zero_eats =
    later
      (later (later start (pick 0 seated after_seat.sems (omega arith) refl))
        (pick 0 has_left after_left.sems (omega arith) refl))
      (pick 0 eating after_right.sems (omega arith) refl)

-- His neighbour is seated but cannot take the fork between them.
neighbour_blocked : philosopher 5 1 seated after_right.sems ≡ none
unfolding philosopher
neighbour_blocked = refl

Reach-neighbour_not_eating_example :
    (after_right.place (right_fork 5 0) ≢ eating) × (after_right.place (right_fork 5 0) ≢ has_left)
Reach-neighbour_not_eating_example =
    Reach-neighbour_not_eating (omega arith) zero_eats 0 (omega arith) refl

Reach-no_deadlock_example :
    CanStep 5 after_right ⊎ ((i : ℕ) → i < 5 → after_right.place i ≡ finished)
Reach-no_deadlock_example = Reach-no_deadlock (omega arith) zero_eats

Reach-Finishes_example : Finishes 5 27 after_right
Reach-Finishes_example = Reach-Finishes (omega arith) zero_eats
