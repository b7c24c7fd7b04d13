-- ===== src/WaitForChild/Tests.antt =====
-- Two children, of which one ends behind an interrupted wait.
use tpt.Common.{ℕ, ◌≡◌, refl, true, false, none, some, List, [], ◌∷◌}
use tpt.WaitForChild.{Child, Fork, interrupted, exited, no_child, sigchld, wait_for_child}
use tpt.WaitForChild.Laws.{parent, wait_for_child-announced}

abbrev two : List Child
two = record { pid = 100; state = true } ∷ record { pid = 101; state = true } ∷ []

abbrev next_pid : ℕ → Fork
next_pid i = some 102

wait_for_child-announced_example :
    ((wait_for_child
        (interrupted ∷ sigchld ∷ exited 101 next_pid ∷ no_child ∷ [])
        (parent two false)).1.table
      ≡ two)
    × (wait_for_child
          (sigchld ∷ interrupted ∷ sigchld ∷ exited 101 next_pid ∷ no_child ∷ [])
          (parent two false)
        ≡ (none, parent two true))
wait_for_child-announced_example =
    wait_for_child-announced (interrupted ∷ sigchld ∷ exited 101 next_pid ∷ no_child ∷ []) two refl
