-- ===== src/HimProxy/Main/Laws.antt =====
-- What the command line can set, and what main comes to.
use tpt.Common.{
  ℕ, ◌+◌, ◌≤◌, ◌<◌, ◌≡◌, refl, ap, sym, subst, Bool-cases, ◌∙◌, ◌⊎◌, inl, inr, Bool, true, false,
  not, ◌&&◌, ◌||◌, some, List, [], ◌∷◌, ℤ, pos, minus, is_neg, if◌then◌else◌, arith,
}
use tpt.HimProxy.{Run, done, running}
use tpt.HimProxy.Children.{
  Children, Table, create_multiple_child, wait_for_child, clamped, rounds_of, max_child,
}
use tpt.HimProxy.Children.Laws.{
  create_multiple_child-counts, clean, unbroken, left, Ending, wait_for_child-clean,
}
use tpt.HimProxy.Network.{tcp_bind_and_listen, set_socket_non_blocking, set_socket_ip_transparent}
use tpt.HimProxy.Main.{
  Opt, help, listen_ip_opt, log_level_opt, num_child_opt, listen_port_opt, version, invalid,
  missing, Settings, options_loop, parse_command_line, Replies, Exit, failure, returned,
  no_children, supervise, start, main,
}

-- Some option is unknown or lacks its argument.
abbrev pub rejected : List Opt → Bool
rejected [] = false
rejected (invalid ∷ opts) = true
rejected (missing ∷ opts) = true
rejected (_ ∷ opts) = rejected opts

-- getopt returns no letter that its option string lacks, and that of the program lacks `n`.
abbrev pub in_optstring : List Opt → Bool
in_optstring [] = true
in_optstring (num_child_opt arg ∷ opts) = false
in_optstring (_ ∷ opts) = in_optstring opts

options_loop-rejected :
    (ret : ℤ) (opts : List Opt) (s : Settings)
    → is_neg (options_loop ret opts s).0 ≡ (is_neg ret || rejected opts)
unfolding options_loop
options_loop-rejected ret [] s = ground arith
options_loop-rejected ret (help ∷ opts) s = options_loop-rejected ret opts s
options_loop-rejected ret (listen_ip_opt arg ∷ opts) s = options_loop-rejected ret opts _
options_loop-rejected ret (log_level_opt arg ∷ opts) s = options_loop-rejected ret opts _
options_loop-rejected ret (num_child_opt arg ∷ opts) s = options_loop-rejected ret opts _
options_loop-rejected ret (listen_port_opt arg ∷ opts) s = options_loop-rejected ret opts _
options_loop-rejected ret (version ∷ opts) s = options_loop-rejected ret opts s
options_loop-rejected ret (invalid ∷ opts) s = options_loop-rejected (minus 1) opts s ∙ ground arith
options_loop-rejected ret (missing ∷ opts) s = options_loop-rejected (minus 1) opts s ∙ ground arith

options_loop-num_child :
    (ret : ℤ) (opts : List Opt) (s : Settings)
    → in_optstring opts ≡ true
    → (options_loop ret opts s).1.num_child ≡ s.num_child
unfolding options_loop
options_loop-num_child ret [] s h = refl
options_loop-num_child ret (help ∷ opts) s h = options_loop-num_child ret opts s h
options_loop-num_child ret (listen_ip_opt arg ∷ opts) s h = options_loop-num_child ret opts _ h
options_loop-num_child ret (log_level_opt arg ∷ opts) s h = options_loop-num_child ret opts _ h
options_loop-num_child ret (num_child_opt arg ∷ opts) s h = absurd (ground arith)
options_loop-num_child ret (listen_port_opt arg ∷ opts) s h = options_loop-num_child ret opts _ h
options_loop-num_child ret (version ∷ opts) s h = options_loop-num_child ret opts s h
options_loop-num_child ret (invalid ∷ opts) s h = options_loop-num_child (minus 1) opts s h
options_loop-num_child ret (missing ∷ opts) s h = options_loop-num_child (minus 1) opts s h

-- With options that getopt can return, parse_command_line fails exactly if one of them is unknown or lacks its argument,
-- and leaves the number of children as it was.
pub parse_command_line-rejected :
    (opts : List Opt) (s : Settings)
    → in_optstring opts ≡ true
    → (is_neg (parse_command_line opts s).0 ≡ rejected opts)
      × ((parse_command_line opts s).1.num_child ≡ s.num_child)
unfolding parse_command_line
parse_command_line-rejected opts s h =
    (options_loop-rejected (pos 0) opts s, options_loop-num_child (pos 0) opts s h)

-- The listening socket is there, non-blocking and transparent.
abbrev pub listens : Replies → Settings → Bool
listens r s =
    let (ret, sock) = tcp_bind_and_listen r.calls true s.listen_port (some (pos 0)) in
    not (is_neg ret)
    && (not (is_neg (set_socket_non_blocking r.getfl r.setfl sock))
        && not (is_neg (set_socket_ip_transparent r.setsockopt sock)))

start-listens :
    (r : Replies) (s : Settings)
    → start r s ≡ (
        if listens r s
        then supervise (
            wait_for_child s.num_child r.waits
              (create_multiple_child s.num_child r.forks no_children))
        else done failure)
unfolding start
start-listens r s =
    let (ret, sock) = tcp_bind_and_listen r.calls true s.listen_port (some (pos 0)) in
    by_tests (is_neg ret) (is_neg (set_socket_non_blocking r.getfl r.setfl sock))
      (is_neg (set_socket_ip_transparent r.setsockopt sock)) (done failure)
      (supervise (
        wait_for_child s.num_child r.waits (create_multiple_child s.num_child r.forks no_children)))
  where
    by_tests :
        (a b c : Bool) (x y : Run Exit)
        → (if a then x else if b then x else if c then x else y)
          ≡ (if not a && (not b && not c) then y else x)
    by_tests true b c x y = refl
    by_tests false true c x y = refl
    by_tests false false true x y = refl
    by_tests false false false x y = refl

-- main while its one child is supervised: it waits while no child has ended with status 0, and else has returned.
abbrev pub OneChild : (ends : ℕ) → Run Exit → Type 0
OneChild ends r =
    ((ends ≡ 0) × (r ≡ running))
    ⊎ ((0 < ends) × ((u : Table) × (r ≡ done (returned (record { table = u; active = 0 })))))

supervise-OneChild :
    (ends : ℕ) (u : Table) (r : Run Children) → Ending ends 1 u r → OneChild ends (supervise r)
unfolding supervise
supervise-OneChild ends u r (inl (few, e)) = inl (omega arith, rw e refl)
supervise-OneChild ends u r (inr (enough, e)) = inr (omega arith, (u, rw e refl))

supervised :
    (num : ℤ) (r : Replies)
    → num ≡ pos 0
    → unbroken r.waits ≡ true
    → OneChild
        (clean r.waits)
        (supervise (wait_for_child num r.waits (create_multiple_child num r.forks no_children)))
unfolding clamped
supervised num r zero_children ok =
    let (active, some_child, few, at) = create_multiple_child-counts num r.forks no_children in
    let one : (create_multiple_child num r.forks no_children).active ≡ 1 =
      active ∙ ap (λ (n : ℤ). 0 + clamped n) zero_children ∙ clamped_zero in
    let bound : rounds_of num ≤ max_child = rw zero_children (omega arith) in
    supervise-OneChild (clean r.waits) _ _ (
      subst
        (λ (n : ℕ).
          Ending (clean r.waits) n
            (left num r.waits (create_multiple_child num r.forks no_children).active
              (create_multiple_child num r.forks no_children).table)
            (wait_for_child num r.waits (create_multiple_child num r.forks no_children)))
        one
        (wait_for_child-clean num r.waits (create_multiple_child num r.forks no_children) bound ok))
  where
    clamped_zero : 0 + clamped (pos 0) ≡ 1
    clamped_zero = refl

main-listens :
    (opts : List Opt) (r : Replies) (s : Settings)
    → in_optstring opts ≡ true
    → main opts r s ≡ (
        if rejected opts
        then done failure
        else if listens r (parse_command_line opts s).1
        then supervise (
            wait_for_child
              (parse_command_line opts s).1.num_child
              r.waits
              (create_multiple_child (parse_command_line opts s).1.num_child r.forks no_children))
        else done failure)
unfolding main
main-listens opts r s allowed =
    let (fails, same) = parse_command_line-rejected opts s allowed in
    ap (λ (b : Bool). if b then done failure else start r (parse_command_line opts s).1) fails
    ∙ ap (λ (x : Run Exit). if rejected opts then done failure else x)
        (start-listens r (parse_command_line opts s).1)

-- With options that getopt can return, the number of children as it is at the start, and waitpid that
-- fails only by being interrupted: main ends with failure if an option is rejected or the listening
-- socket cannot be set up. Else it starts one child, whatever was asked for, and returns exactly when a child has ended with status 0.
pub main_cases :
    (opts : List Opt) (r : Replies) (s : Settings)
    → in_optstring opts ≡ true
    → s.num_child ≡ pos 0
    → unbroken r.waits ≡ true
    → (((rejected opts || not (listens r (parse_command_line opts s).1)) ≡ true)
        × (main opts r s ≡ done failure))
      ⊎ OneChild (clean r.waits) (main opts r s)
main_cases opts r s allowed zero_children ok =
    let (fails, same) = parse_command_line-rejected opts s allowed in
    let run = main-listens opts r s allowed in
    elim (Bool-cases (rejected opts)) [
      | inl bad ↦ inl (rw bad refl, run ∙ rw bad refl)
      | inr good ↦ elim (Bool-cases (listens r (parse_command_line opts s).1)) [
        | inl up ↦ inr (
            subst (OneChild (clean r.waits)) (sym (run ∙ rw (good, up) refl))
              (supervised _ r (same ∙ zero_children) ok))
        | inr down ↦ inl (rw (good, down) refl, run ∙ rw (good, down) refl)
      ]
    ]
