-- ===== src/HimProxy/Start/Tests.antt =====
-- A child that cannot register its socket.
use tpt.Common.{ℕ, ◌-◌, ◌≡◌, true, false, List, [], ◌∷◌, ℤ, pos, minus, ◌==◌, map, some}
use tpt.HimProxy.Children.{Fork, Children, Wait, exited, wait_for_child}
use tpt.HimProxy.Start
use tpt.HimProxy.Events.{handle_epoll_events}
use tpt.HimProxy.Start.{Setup, interrupted, broken, ready, event_loop, serving, start_proxy}
use tpt.HimProxy.Start.Laws.{sets_up, arrivals, start_proxy-sets_up}

abbrev unregistered : Setup
unregistered = record {
  memory = true;
  epoll_create = pos 5;
  events_memory = true;
  epoll_ctl = minus 1;
}

abbrev rounds : List Start.Wait
rounds = interrupted ∷ broken ∷ ready [] ∷ []

start_proxy-sets_up_example :
    (sets_up unregistered ≡ true
      → start_proxy unregistered rounds
        ≡ serving (map (λ evs. handle_epoll_events (some evs)) (arrivals rounds)))
    × (sets_up unregistered ≡ false
        → (status : ℕ) × (start_proxy unregistered rounds ≡ Start.exited status)
          × ((num : ℤ) (pid : ℕ) (forks : ℕ → Fork) (later : List Wait) (c : Children)
              → (c.active == 0) ≡ false
              → wait_for_child num (exited pid status forks ∷ later) c
                ≡ wait_for_child num later (record c { active = c.active - 1 })))
start_proxy-sets_up_example = start_proxy-sets_up unregistered rounds
