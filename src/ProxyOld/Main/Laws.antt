-- ===== src/ProxyOld/Main/Laws.antt =====
-- How main ends.
use tpt.Common.{
  ℕ, ◌≤◌, ◌<◌, ◌≡◌, refl, ◌∙◌, ◌⊎◌, inl, inr, true, false, some, List, [], ℤ, pos, is_neg, arith,
  ltb, if◌then◌else◌,
}
use mathlib.Core.Path.{fun_ext}
use tpt.HimProxy.{Run, done, running}
use tpt.HimProxy.Children.{
  Children, Table, Fork, fork_result, create_multiple_child, clamped, rounds_of, max_child,
}
use tpt.HimProxy.Children.Laws.{
  create_multiple_child-counts, clean, unbroken, left, Ending, wait_for_child-clean,
}
use tpt.ProxyOld.Config.{Conf, ProxyConfig}
use tpt.ProxyOld.Config.Laws.{settings_of, get_config-loaded}
use tpt.ProxyOld.Net.{bad_port}
use tpt.ProxyOld.Net.Laws.{binds, sockets_left_open}
use tpt.ProxyOld.Main.{
  Opt, parse_command_line_arguments, Replies, Exit, returned, no_children, supervise, start,
  then_start, main,
}

-- A parent that waits until `asked` children have ended with status 0, and then returns with the table `u`.
abbrev pub Supervised : (ends asked : ℕ) → (u : Table) → Run Exit → Type 0
Supervised ends asked u r =
    ((ends < asked) × (r ≡ running))
    ⊎ ((asked ≤ ends) × (r ≡ done (returned (record { table = u; active = 0 }))))

supervise-Supervised :
    (ends asked : ℕ) (u : Table) (r : Run Children)
    → Ending ends asked u r
    → Supervised ends asked u (supervise r)
unfolding supervise
supervise-Supervised ends asked u r (inl (few, e)) = inl (few, rw e refl)
supervise-Supervised ends asked u r (inr (enough, e)) = inr (enough, rw e refl)

-- What create_multiple_child makes of the table.
abbrev pub first_table : (num : ℤ) → (ℕ → Fork) → Table
first_table num forks j = if ltb j (clamped num) then fork_result (forks j) else no_children.table j

Children-ext :
    {t u : Table} {a b : ℕ}
    → t ≡ u
    → a ≡ b
    → ◌≡◌ {A = Children} (record { table = t; active = a }) (record { table = u; active = b })
Children-ext e f = rw (e, f) refl

start-Supervised :
    (r : Replies) (c : ProxyConfig) (fd : ℕ)
    → bad_port c.listen_port ≡ false
    → r.calls.socket ≡ pos fd
    → binds r.calls ≡ true
    → rounds_of c.child_count ≤ max_child
    → unbroken r.waits ≡ true
    → Supervised
        (clean r.waits)
        (clamped c.child_count)
        (left c.child_count r.waits (clamped c.child_count) (first_table c.child_count r.forks))
        (start r c)
unfolding start
start-Supervised r c fd port made bound few ok =
    let num = c.child_count in
    let open_socket = (sockets_left_open c.listen_port fd r.calls port made).0 in
    let counts = create_multiple_child-counts num r.forks no_children in
    let counted : (create_multiple_child num r.forks no_children).active ≡ clamped num =
      counts.0 ∙ omega arith in
    let started : create_multiple_child num r.forks no_children
        ≡ record { table = first_table num r.forks; active = clamped num } =
      Children-ext (fun_ext counts.3) counted in
    rw (open_socket, bound, started)
      (supervise-Supervised (clean r.waits) (clamped num) _ _ (
        wait_for_child-clean num r.waits
          (record { table = first_table num r.forks; active = clamped num }) few ok))

-- main, when the file of its last option -c can be loaded and has an address to listen on, socket() has returned a
-- descriptor, the port is good and the socket can be bound, and the file asks for at most `max_child` children: while
-- waitpid does not fail but by being interrupted, main returns exactly when as many children have ended with status 0
-- as the file asks for, or one if it asks for none, and a fork that failed counts as a child too. None is left
-- active then, and the table holds what fork returned at the start, and for a child that had ended with another
-- status and was started again what fork returned for it then.
pub main-supervises :
    (opts : List Opt) (r : Replies) (old : ProxyConfig) (load : ℤ) (conf : Conf) (ip : List ℕ)
    (fd : ℕ)
    → r.load (parse_command_line_arguments opts []) ≡ (load, conf)
    → is_neg load ≡ false
    → conf.listen_ip ≡ some ip
    → bad_port (settings_of conf).listen_port ≡ false
    → r.calls.socket ≡ pos fd
    → binds r.calls ≡ true
    → rounds_of (settings_of conf).child_count ≤ max_child
    → unbroken r.waits ≡ true
    → Supervised
        (clean r.waits)
        (clamped (settings_of conf).child_count)
        (left
          (settings_of conf).child_count
          r.waits
          (clamped (settings_of conf).child_count)
          (first_table (settings_of conf).child_count r.forks))
        (main opts r old)
unfolding main then_start
main-supervises opts r old load conf ip fd found loaded there port made bound few ok =
    rw (found, get_config-loaded load conf old ip loaded there)
      (start-Supervised r (settings_of conf) fd port made bound few ok)
