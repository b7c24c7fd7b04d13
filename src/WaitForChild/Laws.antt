-- ===== src/WaitForChild/Laws.antt =====
-- Which children are started again, and that none is once SIGCHLD has come in.
use tpt.Common.{
  ℕ, ◌+◌, ◌≡◌, refl, sym, ap, ◌∙◌, Bool, true, false, ◌&&◌, Option, none, some, List, [], ◌∷◌, ◌++◌,
  length, length-append, get_elem?, set, ltb, ℤ, ◌==◌, if◌then◌else◌, arith, Bool-cases, inl, inr,
}
use mathlib.Core.List.{append_assoc}
use tpt.WaitForChild.{
  Child, Parent, Fork, forked, restart_child, restart_loop, Event, exited, interrupted, no_child,
  sigchld, on_sigchld, wait_loop, wait_for_child,
}

abbrev pub restarted_if : Bool → Fork → Child → Child
restarted_if b f c = if b then forked f else c

-- The table with each child of this pid that is ON started again, from the index `i` on.
abbrev pub restarted : (forks : ℕ → Fork) → (pid i : ℕ) → List Child → List Child
restarted forks pid i [] = []
restarted forks pid i (c ∷ cs) =
    restarted_if ((pid == c.pid) && c.state) (forks i) c ∷ restarted forks pid (i + 1) cs

get_elem?-append :
    (before : List Child) (c : Child) (cs : List Child)
    → get_elem? (before ++ (c ∷ cs)) (length before) ≡ some c
get_elem?-append [] c cs = refl
get_elem?-append (b ∷ bs) c cs = get_elem?-append bs c cs

set-append :
    (before : List Child) (c d : Child) (cs : List Child)
    → set (before ++ (c ∷ cs)) (length before) d ≡ before ++ (d ∷ cs)
set-append [] c d cs = refl
set-append (b ∷ bs) c d cs = ap (λ (l : List Child). b ∷ l) (set-append bs c d cs)

restart_child-append :
    (f : Fork) (before : List Child) (c : Child) (cs : List Child)
    → (restart_child f (length before) (before ++ (c ∷ cs))).1 ≡ before ++ (forked f ∷ cs)
unfolding restart_child
restart_child-append f before c cs =
    let sum = length-append before (c ∷ cs) in
    let inside : ltb (length before) (length (before ++ (c ∷ cs))) ≡ true = ground arith in
    rw inside (set-append before c (forked f) cs)

-- What the body of the loop makes of the table.
one_step :
    (f : Fork) (pid : ℕ) (before : List Child) (c : Child) (cs : List Child)
    → elim (get_elem? (before ++ (c ∷ cs)) (length before)) as (λ _. List Child) [
      | none ↦ before ++ (c ∷ cs)
      | some d ↦
          if (pid == d.pid) && d.state
          then (restart_child f (length before) (before ++ (c ∷ cs))).1
          else before ++ (c ∷ cs)
    ]
      ≡ before ++ (restarted_if ((pid == c.pid) && c.state) f c ∷ cs)
one_step f pid before c cs = elim (Bool-cases ((pid == c.pid) && c.state)) [
  | inl hit ↦ rw (get_elem?-append before c cs, hit) (restart_child-append f before c cs)
  | inr miss ↦ rw (get_elem?-append before c cs, miss) refl
]

restart_loop-restarted :
    (forks : ℕ → Fork) (pid : ℕ) (before cs : List Child)
    → restart_loop forks pid (length cs) (length before) (before ++ cs)
      ≡ before ++ restarted forks pid (length before) cs
unfolding restart_loop
restart_loop-restarted forks pid before [] = refl
restart_loop-restarted forks pid before (c ∷ cs) =
    let i = length before in
    let c' : Child = restarted_if ((pid == c.pid) && c.state) (forks i) c in
    let step = one_step (forks i) pid before c cs in
    let longer : length (before ++ (c' ∷ [])) ≡ i + 1 = length-append before (c' ∷ []) in
    let joined : (before ++ (c' ∷ [])) ++ cs ≡ before ++ (c' ∷ cs) =
      append_assoc before (c' ∷ []) cs in
    ap (restart_loop forks pid (length cs) (i + 1)) (step ∙ sym joined)
    ∙ ap (λ (k : ℕ). restart_loop forks pid (length cs) k ((before ++ (c' ∷ [])) ++ cs))
        (sym longer)
    ∙ restart_loop-restarted forks pid (before ++ (c' ∷ [])) cs
    ∙ append_assoc before (c' ∷ []) _
    ∙ ap (λ (k : ℕ). before ++ (c' ∷ restarted forks pid k cs)) longer

-- The parent with this table and this flag.
abbrev pub parent : List Child → (exit_flag : Bool) → Parent
parent t flag = record { table = t; exit_flag = flag }

-- With the flag set, no child is started again, and the loop goes on for ever, also without children.
wait_loop-deaf :
    (es : List Event) (t : List Child) → wait_loop es (parent t true) ≡ (none, parent t true)
unfolding wait_loop on_sigchld
wait_loop-deaf [] t = refl
wait_loop-deaf (exited pid forks ∷ es) t = wait_loop-deaf es t
wait_loop-deaf (interrupted ∷ es) t = wait_loop-deaf es t
wait_loop-deaf (no_child ∷ es) t = wait_loop-deaf es t
wait_loop-deaf (sigchld ∷ es) t = wait_loop-deaf es t

-- waitpid returns no pid before SIGCHLD has come in.
abbrev pub announced : List Event → Bool
announced [] = true
announced (sigchld ∷ es) = true
announced (exited pid forks ∷ es) = false
announced (_ ∷ es) = announced es

wait_loop-announced :
    (es : List Event) (t : List Child)
    → announced es ≡ true
    → (wait_loop es (parent t false)).1.table ≡ t
unfolding wait_loop on_sigchld
wait_loop-announced [] t a = refl
wait_loop-announced (exited pid forks ∷ es) t a = absurd (ground arith)
wait_loop-announced (interrupted ∷ es) t a = wait_loop-announced es t a
wait_loop-announced (no_child ∷ es) t a = refl
wait_loop-announced (sigchld ∷ es) t a =
    ap (λ (r : Option ℤ × Parent). r.1.table) (wait_loop-deaf es t)

-- As long as no signal has come in, wait_for_child starts exactly those children again that have the pid that waitpid
-- returned and are ON, each in its entry, and goes on.
pub wait_for_child-restarted :
    (pid : ℕ) (forks : ℕ → Fork) (es : List Event) (t : List Child)
    → wait_for_child (exited pid forks ∷ es) (parent t false)
      ≡ wait_for_child es (parent (restarted forks pid 0 t) false)
unfolding wait_for_child wait_loop
wait_for_child-restarted pid forks es t =
    ap (λ (t' : List Child). wait_loop es (parent t' false)) (restart_loop-restarted forks pid [] t)

-- When SIGCHLD comes in before waitpid returns the child's pid, as it does when a child ends, wait_for_child leaves the table
-- as it is: its handler has set gExitFlag, and no child is ever started again. From the first SIGCHLD on
-- it does not return either, also when no child is left.
pub wait_for_child-announced :
    (es : List Event) (t : List Child)
    → announced es ≡ true
    → ((wait_for_child es (parent t false)).1.table ≡ t)
      × (wait_for_child (sigchld ∷ es) (parent t false) ≡ (none, parent t true))
unfolding wait_for_child wait_loop on_sigchld
wait_for_child-announced es t a = (wait_loop-announced es t a, wait_loop-deaf es t)
