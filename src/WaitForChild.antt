-- ===== src/WaitForChild.antt =====
-- src/system/waitForChild/waitforchild.c: a parent that is to start its children again when they end. A
-- process runs here as the parent does. What fork and waitpid answer, and when signals come in, is an argument.
mod Laws
mod Tests
use tpt.Common.{
  ℕ, zero, suc, ◌+◌, Bool, true, false, ◌&&◌, Option, none, some, List, [], ◌∷◌, ◌++◌, length,
  get_elem?, set, ltb, ℤ, pos, minus, ◌==◌, if◌then◌else◌,
}

-- An entry of gChildTable; `state` is ON.
pub record Child : Type 0 where
  pub pid : ℕ
  pub state : Bool

-- gChildTable, of NUM_CHILD entries, and gExitFlag.
pub record Parent : Type 0 where
  pub table : List Child
  pub exit_flag : Bool

-- The pid that fork returns, `none` for -1.
abbrev pub Fork : Type 0
Fork = Option ℕ

-- The entry behind a fork.
pub forked : Fork → Child
forked none = record { pid = 0; state = false }
forked (some pid) = record { pid = pid; state = true }

-- The loop of main that creates the children.
pub create_children : (forks : List Fork) → List Child
unfolding forked
create_children [] = []
create_children (f ∷ fs) = forked f ∷ create_children fs

-- `index` is a natural number, so of the test for it the upper half is left.
pub restart_child : Fork → (index : ℕ) → List Child → ℤ × List Child
unfolding forked
restart_child f index t =
    if ltb index (length t)
    then ((elim f [ none ↦ minus 1 | some pid ↦ pos 0 ]), set t index (forked f))
    else (minus 1, t)

-- The loop over the table for the pid that waitpid has returned: `forks i` is the fork for entry i. The bound of
-- the loop is the number of entries that are left.
pub restart_loop : (forks : ℕ → Fork) → (pid : ℕ) → (rounds i : ℕ) → List Child → List Child
unfolding restart_child
restart_loop forks pid zero i t = t
restart_loop forks pid (suc rounds) i t =
    let t' : List Child = elim (get_elem? t i) [
      | none ↦ t
      | some c ↦ if (pid == c.pid) && c.state then (restart_child (forks i) i t).1 else t
    ] in
    restart_loop forks pid rounds (i + 1) t'

-- waitpid returns a pid, or fails with EINTR, or with another errno; or, between these, the handler runs for
-- SIGCHLD.
pub data Event : Type 0 where
  exited : (pid : ℕ) → (forks : ℕ → Fork) → Event
  interrupted : Event
  no_child : Event
  sigchld : Event

-- parentSignalHandler for SIGCHLD
pub on_sigchld : Parent → Parent
on_sigchld p = record p { exit_flag = true }

-- The result, `none` while the loop goes on.
pub wait_loop : List Event → Parent → Option ℤ × Parent
unfolding restart_loop on_sigchld
wait_loop [] p = (none, p)
wait_loop (sigchld ∷ es) p = wait_loop es (on_sigchld p)
wait_loop (interrupted ∷ es) p = wait_loop es p
wait_loop (no_child ∷ es) p =
    let rest = wait_loop es p in if p.exit_flag then rest else (some (pos 0), p)
wait_loop (exited pid forks ∷ es) p =
    let t = if p.exit_flag then p.table else restart_loop forks pid (length p.table) 0 p.table in
    wait_loop es (record p { table = t })

pub wait_for_child : List Event → Parent → Option ℤ × Parent
unfolding wait_loop
wait_for_child es p = if p.exit_flag then (some (pos 0), p) else wait_loop es p

-- parentSignalHandler for another signal: the children that it sends the signal to, before it takes the signal's
-- default action.
pub signalled : List Child → List ℕ
signalled [] = []
signalled (c ∷ cs) = if c.state then c.pid ∷ signalled cs else signalled cs

pub on_signal : Parent → Parent × List ℕ
unfolding signalled
on_signal p = (record p { exit_flag = true }, signalled p.table)
