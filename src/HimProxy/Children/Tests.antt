-- ===== src/HimProxy/Children/Tests.antt =====
-- A proxy with two children, one of which fork fails to make, and the instances of the theorems there.
use tpt.Common.{ℕ, ◌+◌, ◌≡◌, refl, some, List, [], ◌∷◌, arith, pos, minus, ◌==◌, if◌then◌else◌}
use tpt.HimProxy.Children.{
  Fork, failed, forked, Children, create_multiple_child, Wait, interrupted, exited, wait_for_child,
  kill_all_children,
}
use tpt.HimProxy.Children.Laws.{Ending, restarted, wait_for_child-clean}

abbrev none_started : Children
none_started = record { table = λ _. pos 0; active = 0 }

-- The second fork fails.
abbrev two_forks : ℕ → Fork
two_forks i = if i == 1 then failed else forked (100 + i)

abbrev two_children : Children
two_children = record { table = λ i. if i == 1 then minus 1 else pos 101; active = 2 }

-- The child 101 ends with status 9 and is started again as 103.
abbrev answers : List Wait
answers =
    exited 101 9 (λ i. forked 102)
    ∷ interrupted
    ∷ exited 103 0 two_forks
    ∷ exited 7 0 two_forks
    ∷ []

counts_both : (create_multiple_child (pos 2) two_forks none_started).active ≡ 2
unfolding create_multiple_child
counts_both = refl

signals_all :
    kill_all_children (pos 2) (λ _. pos 0) two_children.table ≡ some (pos 0, pos 101 ∷ minus 1 ∷ [])
unfolding kill_all_children
signals_all = refl

wait_for_child-clean_example :
    Ending 2 2
      (restarted (pos 2) (pos 101) (λ i. forked 102) two_children.table)
      (wait_for_child (pos 2) answers two_children)
wait_for_child-clean_example = wait_for_child-clean (pos 2) answers two_children (omega arith) refl
