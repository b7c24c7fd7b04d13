-- ===== src/HimProxy/Signals.antt =====
-- signal_handler.c, with the cleanup functions of core.c that its handlers call. What the calls answer is an argument.
mod Laws
mod Tests
use tpt.Common.{
  ℕ, Bool, Option, none, some, List, [], ◌∷◌, ◌++◌, map, ℤ, pos, minus, is_neg, ◌==◌, if◌then◌else◌,
}
use tpt.HimProxy.Children.{Table, kill_all_children}

-- What a handler does to the world: it sends a signal to a pid, closes the listening socket and the log, gives a signal
-- its default action, and raises it.
pub data Effect : Type 0 where
  kill : (pid : ℤ) → (signum : ℕ) → Effect
  close_server_sock : Effect
  close_system_logger : Effect
  set_default : (signum : ℕ) → Effect
  raise : (signum : ℕ) → Effect

pub register_signal_handler : (sigaction : ℤ) → ℤ
register_signal_handler ret = if is_neg ret then minus 1 else ret

-- SIGHUP, SIGINT, SIGQUIT, SIGILL, SIGTRAP, SIGABRT, SIGFPE, SIGUSR1, SIGSEGV, SIGUSR2, SIGPIPE, SIGALRM, SIGCHLD,
-- SIGCONT, SIGTSTP, SIGTTIN and SIGTTOU, as Linux numbers them.
abbrev pub signums : List ℕ
signums = 1 ∷ 2 ∷ 3 ∷ 4 ∷ 5 ∷ 6 ∷ 8 ∷ 10 ∷ 11 ∷ 12 ∷ 13 ∷ 14 ∷ 17 ∷ 18 ∷ 20 ∷ 21 ∷ 22 ∷ []

abbrev pub sigchld : ℕ
sigchld = 17

-- The signals for which a handler is set.
pub register_loop : (sigaction : ℕ → ℤ) → List ℕ → List ℕ
register_loop sigaction [] = []
register_loop sigaction (s ∷ rest) =
    if is_neg (register_signal_handler (sigaction s))
    then register_loop sigaction rest
    else s ∷ register_loop sigaction rest

pub register_all_signal_handler : (sigaction : ℕ → ℤ) → ℤ × List ℕ
unfolding register_loop register_signal_handler
register_all_signal_handler sigaction = (pos 0, register_loop sigaction signums)

pub proxy_parent_cleanup : List Effect
proxy_parent_cleanup = close_server_sock ∷ close_system_logger ∷ []

pub proxy_child_cleanup : List Effect
proxy_child_cleanup = close_server_sock ∷ close_system_logger ∷ []

abbrev pub die_of : ℕ → List Effect
die_of signum = set_default signum ∷ raise signum ∷ []

-- `none` is a read behind the table of the children.
pub parent_signal_handler :
    (g_num_child : ℤ) → (kills : ℕ → ℤ) → Table → (signum : ℕ) → Option (List Effect)
parent_signal_handler num kills t signum =
    if signum == sigchld then some (die_of signum) else elim (kill_all_children num kills t) [
      | none ↦ none
      | some (ret, pids) ↦
          some (map (λ pid. kill pid signum) pids ++ (proxy_parent_cleanup ++ die_of signum))
    ]

pub child_signal_handler : (signum : ℕ) → List Effect
child_signal_handler signum = proxy_child_cleanup ++ die_of signum
