-- ===== src/HimProxy/Start/Laws.antt =====
-- When a child serves, and what its parent makes of one that does not.
use tpt.Common.{
  ℕ, ◌-◌, ◌≡◌, refl, Bool, true, false, not, ◌&&◌, List, [], ◌∷◌, some, ap, map, ℤ, pos, is_neg,
  int_eq, ◌==◌, arith,
}
use tpt.HimProxy.Children.{Fork, Children, Wait, exited, wait_for_child}
use tpt.HimProxy.Poller.{init_poller, add_to_poller, interest_of}
use tpt.HimProxy.Start.{Setup, init_proxy, event_in, event_loop, Child, serving, start_proxy}
use tpt.HimProxy.Start
use tpt.HimProxy.Events.{EpollEvent, handle_epoll_events}

-- The poller can be made, and the listening socket registered with it.
abbrev pub sets_up : Setup → Bool
sets_up s =
    s.memory && (not (is_neg s.epoll_create) && (s.events_memory && int_eq s.epoll_ctl (pos 0)))

init_poller-ret :
    (memory : Bool) (fd : ℤ) (events_memory : Bool)
    → is_neg (init_poller true memory fd events_memory).ret
      ≡ not (memory && (not (is_neg fd) && events_memory))
unfolding init_poller
init_poller-ret false fd events_memory = refl
init_poller-ret true fd events_memory = ground arith

init_proxy-zero : (s : Setup) → int_eq (init_proxy s) (pos 0) ≡ sets_up s
unfolding init_proxy add_to_poller interest_of
init_proxy-zero s = ground (arith, init_poller-ret s.memory s.epoll_create s.events_memory)

-- The events of the rounds in which epoll_wait returns some; it fails in the others.
abbrev pub arrivals : List Start.Wait → List (List EpollEvent)
arrivals [] = []
arrivals (Start.interrupted ∷ ws) = arrivals ws
arrivals (Start.broken ∷ ws) = arrivals ws
arrivals (Start.ready evs ∷ ws) = evs ∷ arrivals ws

event_loop-arrivals :
    (ws : List Start.Wait)
    → event_loop ws ≡ map (λ evs. handle_epoll_events (some evs)) (arrivals ws)
unfolding event_loop
event_loop-arrivals [] = refl
event_loop-arrivals (Start.interrupted ∷ ws) = event_loop-arrivals ws
event_loop-arrivals (Start.broken ∷ ws) = event_loop-arrivals ws
event_loop-arrivals (Start.ready evs ∷ ws) =
    ap (λ (l : List ℤ). handle_epoll_events (some evs) ∷ l) (event_loop-arrivals ws)

-- A child whose poller can be made and whose listening socket can be registered serves on: it handles the events of every
-- round in which epoll_wait returns, in order, whatever errors epoll_wait returns between them and whatever
-- handle_epoll_events returns. Any other leaves at once, and with a status for which its parent
-- takes it off the count of active children and does not start it again.
pub start_proxy-sets_up :
    (s : Setup) (ws : List Start.Wait)
    → (sets_up s ≡ true
        → start_proxy s ws ≡ serving (map (λ evs. handle_epoll_events (some evs)) (arrivals ws)))
      × (sets_up s ≡ false
          → (status : ℕ) × (start_proxy s ws ≡ Start.exited status)
            × ((num : ℤ) (pid : ℕ) (forks : ℕ → Fork) (later : List Wait) (c : Children)
                → (c.active == 0) ≡ false
                → wait_for_child num (exited pid status forks ∷ later) c
                  ≡ wait_for_child num later (record c { active = c.active - 1 })))
unfolding start_proxy
start_proxy-sets_up s ws = (
  λ fine. rw (init_proxy-zero s, fine, event_loop-arrivals ws) refl,
  λ bad. (
    0,
    rw (init_proxy-zero s, bad) refl,
    λ num pid forks later c more. unfold wait_for_child in rw more refl,
  ),
)
