-- ===== src/HimProxy/Signals/Laws.antt =====
-- Whom the parent passes a signal on to.
use tpt.Common.{
  ℕ, ◌≡◌, refl, sym, ap, ◌≤◌, some, [], ◌∷◌, ◌++◌, map, ℤ, Bool-cases, inl, inr, ◌==◌,
  if◌then◌else◌,
}
use mathlib.Core.List.{append_assoc}
use tpt.HimProxy.Children.{max_child, Fork, fork_result, Children, create_multiple_child, rounds_of}
use tpt.HimProxy.Children.Killed.{entries, kill_all_children-started}
use tpt.HimProxy.Signals.{
  kill, close_server_sock, close_system_logger, set_default, raise, sigchld, proxy_parent_cleanup,
  parent_signal_handler,
}

-- A parent with at most `max_child` children that gets a signal sends it on to what fork returned for each child below
-- `num`, in order, unless the signal is SIGCHLD; then it closes the listening socket and the log, unless the
-- signal is SIGCHLD; and then it raises the signal again with its default action.
pub parent_signal_handler-passes_on :
    (num : ℤ) (forks : ℕ → Fork) (kills : ℕ → ℤ) (s : Children) (signum : ℕ)
    → rounds_of num ≤ max_child
    → parent_signal_handler num kills (create_multiple_child num forks s).table signum
      ≡ some (
          (if signum == sigchld
            then []
            else map
                (λ pid. kill pid signum)
                (entries (rounds_of num) 0 (λ j. fork_result (forks j)))
              ++ (close_server_sock ∷ close_system_logger ∷ []))
          ++ (set_default signum ∷ raise signum ∷ []))
unfolding parent_signal_handler proxy_parent_cleanup
parent_signal_handler-passes_on num forks kills s signum fits =
    elim (Bool-cases (signum == sigchld)) [
      | inl child ↦ rw (child, parent_signal_handler) refl
      | inr other ↦
          rw (other, parent_signal_handler, kill_all_children-started num forks kills s fits)
            (ap some (
              sym (
                append_assoc _ (close_server_sock ∷ close_system_logger ∷ [])
                  (set_default signum ∷ raise signum ∷ []))))
    ]
