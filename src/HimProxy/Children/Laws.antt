-- ===== src/HimProxy/Children/Laws.antt =====
-- Which children the parent counts, restarts and signals.
use tpt.Common.{
  ℕ, zero, suc, ◌+◌, ◌-◌, ◌≤◌, ◌<◌, ◌≡◌, refl, sym, ℕ_discrete, ap, ◌∙◌, ◌⊎◌, inl, inr, Bool, true,
  false, ◌&&◌, some, List, [], ◌∷◌, arith, ℤ, pos, negsuc, int_eq, leb, ltb, ◌==◌, if◌then◌else◌,
}
use tpt.Common.Family.{update}
use mathlib.Core.Path.{fun_ext}
use tpt.HimProxy.{Run, done, running}
use tpt.HimProxy.Children.{
  max_child, Fork, failed, forked, fork_result, Table, Children, start_child, create_loop, clamped,
  create_multiple_child, rounds_of, exit_loop, handle_child_exit, Wait, interrupted, broken, exited,
  after_exit, wait_for_child,
}

start_child-pid :
    (f : Fork) (i : ℕ) (t : Table) → start_child f i t ≡ (fork_result f, update t i (fork_result f))
unfolding start_child
start_child-pid failed i t = refl
start_child-pid (forked n) i t = refl

fork_result-ne : (f : Fork) → int_eq (fork_result f) (pos 0) ≡ false
fork_result-ne failed = refl
fork_result-ne (forked n) = ground arith

-- The table where the entries from `i` on, `rounds` of them, are those that fork gives.
create_loop-table :
    (rounds i : ℕ) (forks : ℕ → Fork) (s : Children)
    → (j : ℕ)
    → (create_loop rounds i forks s).table j
      ≡ (if leb i j && ltb j (i + rounds) then fork_result (forks j) else s.table j)
unfolding create_loop
create_loop-table zero i forks s j = ground arith
create_loop-table (suc rounds) i forks s j =
    create_loop-table rounds (i + 1) forks _ j
    ∙ rw (start_child-pid (forks i) i s.table) (ground arith)

create_loop-active :
    (rounds i : ℕ) (forks : ℕ → Fork) (s : Children)
    → (create_loop rounds i forks s).active ≡ s.active + rounds
unfolding create_loop
create_loop-active zero i forks s = omega arith
create_loop-active (suc rounds) i forks s =
    create_loop-active rounds (i + 1) forks _
    ∙ rw (start_child-pid (forks i) i s.table, fork_result-ne (forks i)) (omega arith)

-- An update under a test.
pick_update :
    (c : Bool) (t : Table) (i : ℕ) (v : ℤ) (j : ℕ)
    → (if c then update t i v else t) j ≡ (if (i == j) && c then v else t j)
pick_update true t i v j = ground arith
pick_update false t i v j = ground arith

-- One round of handle_child_exit.
entry_restarted :
    (i : ℕ) (pid : ℤ) (f : Fork) (t : Table) (j : ℕ)
    → (if int_eq pid (t i) then (start_child f i t).1 else t) j
      ≡ (if (i == j) && int_eq pid (t i) then fork_result f else t j)
entry_restarted i pid f t j =
    rw (start_child-pid f i t) (pick_update (int_eq pid (t i)) t i (fork_result f) j)

exit_loop-table :
    (rounds i : ℕ) (pid : ℤ) (forks : ℕ → Fork) (t : Table)
    → i + rounds ≤ max_child
    → (u : Table) × (exit_loop rounds i pid forks t ≡ some u)
      × ((j : ℕ)
          → u j ≡ (
              if leb i j && (ltb j (i + rounds) && int_eq pid (t j))
              then fork_result (forks j)
              else t j))
unfolding exit_loop
exit_loop-table zero i pid forks t fits = (t, refl, λ j. ground arith)
exit_loop-table (suc rounds) i pid forks t fits =
    let t' : Table = if int_eq pid (t i) then (start_child (forks i) i t).1 else t in
    let (u, e, at) = exit_loop-table rounds (i + 1) pid forks t' (omega arith) in
    let inside : ltb i max_child ≡ true = ground arith in
    (
      u,
      rw inside e,
      λ j. at j ∙ elim (ℕ_discrete i j) [
        | yes e ↦ rw (sym e) (rw (entry_restarted i pid (forks i) t i) (ground arith))
        | no ne ↦ rw (entry_restarted i pid (forks i) t j) (ground arith)
      ],
    )

-- With a table that holds them all, handle_child_exit starts the child again in every entry that has
-- the pid, and changes no other entry.
pub handle_child_exit-table :
    (num pid : ℤ) (forks : ℕ → Fork) (t : Table)
    → rounds_of num ≤ max_child
    → (u : Table) × (handle_child_exit num pid forks t ≡ some u)
      × ((j : ℕ)
          → u j
            ≡ (if ltb j (rounds_of num) && int_eq pid (t j) then fork_result (forks j) else t j))
unfolding handle_child_exit
handle_child_exit-table num pid forks t fits =
    let (u, e, at) = exit_loop-table (rounds_of num) 0 pid forks t (omega arith) in
    (u, e, λ j. at j ∙ ground arith)

clamped_bounds : (n : ℤ) → (0 < clamped n) × (clamped n ≤ max_child)
unfolding clamped
clamped_bounds (pos n) = (ground arith, ground arith)
clamped_bounds (negsuc n) = (omega arith, omega arith)

-- create_multiple_child starts as many children as asked, but at least 1 and at most `max_child`, puts
-- what fork returns into the entries of the table in order, and counts them all as active, those that fork failed to make included.
pub create_multiple_child-counts :
    (num : ℤ) (forks : ℕ → Fork) (s : Children)
    → ((create_multiple_child num forks s).active ≡ s.active + clamped num)
      × (0 < clamped num)
      × (clamped num ≤ max_child)
      × ((j : ℕ)
          → (create_multiple_child num forks s).table j
            ≡ (if ltb j (clamped num) then fork_result (forks j) else s.table j))
unfolding create_multiple_child
create_multiple_child-counts num forks s = (
  create_loop-active (clamped num) 0 forks s,
  (clamped_bounds num).0,
  (clamped_bounds num).1,
  λ j. create_loop-table (clamped num) 0 forks s j ∙ ground arith,
)

-- The children that end with status 0 among the answers of waitpid.
abbrev pub clean : List Wait → ℕ
clean [] = 0
clean (interrupted ∷ ws) = clean ws
clean (broken err ∷ ws) = clean ws
clean (exited pid zero forks ∷ ws) = suc (clean ws)
clean (exited pid (suc status) forks ∷ ws) = clean ws

-- waitpid fails only by being interrupted.
abbrev pub unbroken : List Wait → Bool
unbroken [] = true
unbroken (interrupted ∷ ws) = unbroken ws
unbroken (broken err ∷ ws) = false
unbroken (exited pid status forks ∷ ws) = unbroken ws

-- The table in which every entry below `num` that has the pid holds what fork returns for it.
abbrev pub restarted : (num pid : ℤ) → (ℕ → Fork) → Table → Table
restarted num pid forks t j =
    if ltb j (rounds_of num) && int_eq pid (t j) then fork_result (forks j) else t j

-- The table when none is active any more: each child that has ended before with another status than 0 is
-- started again in its entries.
abbrev pub left : (num : ℤ) → List Wait → (active : ℕ) → Table → Table
left num ws zero t = t
left num [] (suc a) t = t
left num (interrupted ∷ ws) (suc a) t = left num ws (suc a) t
left num (broken err ∷ ws) (suc a) t = t
left num (exited pid zero forks ∷ ws) (suc a) t = left num ws a t
left num (exited pid (suc status) forks ∷ ws) (suc a) t =
    left num ws (suc a) (restarted num (pos pid) forks t)

-- A run that still waits after fewer clean ends than there are children, and else has returned with the table `u`.
abbrev pub Ending : (ends active : ℕ) → (u : Table) → Run Children → Type 0
Ending ends active u r =
    ((ends < active) × (r ≡ running))
    ⊎ ((active ≤ ends) × (r ≡ done (record { table = u; active = 0 })))

handle_child_exit-restarted :
    (num pid : ℤ) (forks : ℕ → Fork) (t : Table)
    → rounds_of num ≤ max_child
    → handle_child_exit num pid forks t ≡ some (restarted num pid forks t)
handle_child_exit-restarted num pid forks t fits =
    let (u, e, at) = handle_child_exit-table num pid forks t fits in e ∙ ap some (fun_ext at)

Ending-suc :
    (ends active : ℕ) (u : Table) (r : Run Children)
    → Ending ends active u r
    → Ending (suc ends) (suc active) u r
Ending-suc ends active u r (inl (few, e)) = inl (omega arith, e)
Ending-suc ends active u r (inr (enough, e)) = inr (omega arith, e)

-- The test of the loop with a child active.
Ending-tested :
    (ends a : ℕ) (u : Table) (s : Children) (rest : Run Children)
    → Ending ends (suc a) u rest
    → Ending ends (suc a) u (if suc a == 0 then done s else rest)
Ending-tested ends a u s rest h = let more : (suc a == 0) ≡ false = ground arith in rw more h

wait_for_child-Ending :
    (num : ℤ) (ws : List Wait) (a : ℕ) (t : Table)
    → rounds_of num ≤ max_child
    → unbroken ws ≡ true
    → Ending
        (clean ws)
        a
        (left num ws a t)
        (wait_for_child num ws (record { table = t; active = a }))
unfolding wait_for_child after_exit
wait_for_child-Ending num [] zero t fits ok = inr (omega arith, refl)
wait_for_child-Ending num (interrupted ∷ ws) zero t fits ok = inr (omega arith, refl)
wait_for_child-Ending num (broken err ∷ ws) zero t fits ok = absurd (ground arith)
wait_for_child-Ending num (exited pid status forks ∷ ws) zero t fits ok = inr (omega arith, refl)
wait_for_child-Ending num [] (suc a) t fits ok =
    Ending-tested 0 a t _ running (inl (omega arith, refl))
wait_for_child-Ending num (interrupted ∷ ws) (suc a) t fits ok =
    Ending-tested (clean ws) a _ _ _ (wait_for_child-Ending num ws (suc a) t fits ok)
wait_for_child-Ending num (broken err ∷ ws) (suc a) t fits ok = absurd (ground arith)
wait_for_child-Ending num (exited pid zero forks ∷ ws) (suc a) t fits ok =
    let one_less : suc a - 1 ≡ a = omega arith in
    Ending-tested (suc (clean ws)) a _ _ _
      (rw one_less (Ending-suc (clean ws) a _ _ (wait_for_child-Ending num ws a t fits ok)))
wait_for_child-Ending num (exited pid (suc status) forks ∷ ws) (suc a) t fits ok =
    Ending-tested (clean ws) a _ _ _ (
      rw (handle_child_exit-restarted num (pos pid) forks t fits)
        (wait_for_child-Ending num ws (suc a) (restarted num (pos pid) forks t) fits ok))

-- While waitpid does not fail but by being interrupted, and the table holds all children, wait_for_child
-- returns exactly when as many children have ended with status 0 as were active, with none left
-- active. A child that ends before with another status stays active, and is started again in the entries below
-- g_num_child that have its pid: the table that is returned holds there what fork returned for them, and is
-- else as it was. With g_num_child 0 there is no such entry, and no child is started again.
pub wait_for_child-clean :
    (num : ℤ) (ws : List Wait) (s : Children)
    → rounds_of num ≤ max_child
    → unbroken ws ≡ true
    → Ending (clean ws) s.active (left num ws s.active s.table) (wait_for_child num ws s)
wait_for_child-clean num ws s fits ok = wait_for_child-Ending num ws s.active s.table fits ok
