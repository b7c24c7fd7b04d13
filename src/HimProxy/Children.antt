-- ===== src/HimProxy/Children.antt =====
-- The children of the proxy: create_multiple_child and start_child of core.c, wait_for_child and
-- handle_child_exit of main.c, kill_all_children of signal_handler.c. A process runs here as the parent does;
-- start_child does not return in a child. What fork, waitpid and kill answer is an argument.
pub mod Laws
pub mod Killed
mod Tests
use tpt.Common.{
  ℕ, zero, suc, ◌+◌, ◌-◌, Bool, true, false, Option, none, some, List, [], ◌∷◌, ℤ, pos, negsuc,
  minus, is_neg, int_eq, ltb, ◌==◌, if◌then◌else◌,
}
use tpt.Common.Family.{update}
use tpt.HimProxy.{Run, done, running, fault}

abbrev pub max_child : ℕ
max_child = 16

-- What fork() returns to the parent: -1, or the pid `1 + n` of the child.
pub data Fork : Type 0 where
  failed : Fork
  forked : (n : ℕ) → Fork

abbrev pub fork_result : Fork → ℤ
fork_result failed = minus 1
fork_result (forked n) = pos (suc n)

-- g_child_table, which has `max_child` entries
abbrev pub Table : Type 0
Table = ℕ → ℤ

-- g_child_table and g_active_child_count
pub record Children : Type 0 where
  pub table : Table
  pub active : ℕ

pub start_child : Fork → (index : ℕ) → Table → ℤ × Table
start_child f index t =
    if is_neg (fork_result f)
    then (fork_result f, update t index (minus 1))
    else (fork_result f, update t index (fork_result f))

create_loop : (rounds i : ℕ) → (ℕ → Fork) → Children → Children
unfolding start_child
create_loop zero i forks s = s
create_loop (suc rounds) i forks s =
    let (pid, t) = start_child (forks i) i s.table in
    create_loop rounds (i + 1) forks
      (record { table = t; active = if int_eq pid (pos 0) then s.active else s.active + 1 })

-- The local `num_child` after its checks.
unfoldable pub clamped : ℤ → ℕ
clamped (pos n) = if n == 0 then 1 else if ltb max_child n then max_child else n
clamped (negsuc n) = 1

-- `forks i` is the answer to the fork for index `i`.
unfoldable pub create_multiple_child : (num_child : ℤ) → (forks : ℕ → Fork) → Children → Children
unfolding create_loop clamped
create_multiple_child num_child forks s = create_loop (clamped num_child) 0 forks s

-- How often `for (i = 0; i < num; i++)` runs.
abbrev pub rounds_of : ℤ → ℕ
rounds_of (pos n) = n
rounds_of (negsuc n) = 0

exit_loop : (rounds i : ℕ) → (pid : ℤ) → (ℕ → Fork) → Table → Option Table
unfolding start_child
exit_loop zero i pid forks t = some t
exit_loop (suc rounds) i pid forks t =
    let t' = if int_eq pid (t i) then (start_child (forks i) i t).1 else t in
    let rest = exit_loop rounds (i + 1) pid forks t' in if ltb i max_child then rest else none

-- `none` is a read behind the table.
pub handle_child_exit : (g_num_child pid : ℤ) → (forks : ℕ → Fork) → Table → Option Table
unfolding exit_loop
handle_child_exit num pid forks t = exit_loop (rounds_of num) 0 pid forks t

-- waitpid() fails with EINTR, or with another errno; or it reports a child and its status, and `forks`
-- is what fork answers if the child is started again.
pub data Wait : Type 0 where
  interrupted : Wait
  broken : (err : ℕ) → Wait
  exited : (pid status : ℕ) → (forks : ℕ → Fork) → Wait

-- What the loop does with the status of a child.
after_exit : (g_num_child : ℤ) → (pid status : ℕ) → (ℕ → Fork) → Children → Option Children
unfolding handle_child_exit
after_exit num pid zero forks s = some (record s { active = s.active - 1 })
after_exit num pid (suc status) forks s = elim (handle_child_exit num (pos pid) forks s.table) [
  | none ↦ none
  | some t ↦ some (record s { table = t })
]

unfoldable pub wait_for_child : (g_num_child : ℤ) → List Wait → Children → Run Children
unfolding after_exit
wait_for_child num [] s = if s.active == 0 then done s else running
wait_for_child num (interrupted ∷ ws) s =
    let rest = wait_for_child num ws s in if s.active == 0 then done s else rest
wait_for_child num (broken err ∷ ws) s = done s
wait_for_child num (exited pid status forks ∷ ws) s =
    let rest : Run Children = elim (after_exit num pid status forks s) [
      | none ↦ fault
      | some s' ↦ wait_for_child num ws s'
    ] in
    if s.active == 0 then done s else rest

kill_loop : (rounds i : ℕ) → (ret : ℤ) → (kills : ℕ → ℤ) → Table → Option (ℤ × List ℤ)
kill_loop zero i ret kills t = some (ret, [])
kill_loop (suc rounds) i ret kills t =
    let rest = kill_loop rounds (i + 1) (if is_neg (kills i) then minus 1 else kills i) kills t in
    if ltb i max_child
    then elim rest [ none ↦ none | some (r, pids) ↦ some (r, t i ∷ pids) ]
    else none

-- The result and the pids that `kill` is called on; `kills i` is what it returns for entry `i`.
pub kill_all_children : (g_num_child : ℤ) → (kills : ℕ → ℤ) → Table → Option (ℤ × List ℤ)
unfolding kill_loop
kill_all_children num kills t = kill_loop (rounds_of num) 0 (pos 0) kills t
