-- ===== src/EpollEcho/Main/Laws.antt =====
-- A server that is set up, over any number of rounds.
use tpt.Common.{
  ℕ, ◌≡◌, refl, ap, ◌∙◌, Bool, true, false, not, ◌&&◌, List, [], ◌∷◌, ◌++◌, pos, minus, int_eq,
  arith,
}
use mathlib.Core.Path.{fun_ext}
use tpt.EpollEcho.{
  Address, create_and_bind, make_socket_non_blocking, Event, Server, handle_event, Outcome, ok,
  waits, aborted, event_loop,
}
use tpt.EpollEcho.Binding.{unusable, opens, create_and_bind-first}
use tpt.EpollEcho.Laws.{all_settle, all_printed, deaf, event_loop-Handled}
use tpt.EpollEcho.Main.{
  Calls, Process, serving, waiting, aborted_by, listening, rounds_loop, start, main,
}

-- The events of all rounds, in order.
abbrev pub joined : List (List Event) → List Event
joined [] = []
joined (es ∷ rounds) = es ++ joined rounds

abbrev then_rounds : Outcome Server → (Server → Process) → Process
then_rounds (ok s) next = next s
then_rounds waits next = waiting
then_rounds aborted next = aborted_by

-- A loop over the events that goes on behind the outcome of the first.
abbrev then_events : (sfd : ℕ) → List Event → Outcome Server → Outcome Server
then_events sfd es (ok s) = event_loop sfd es s
then_events sfd es waits = waits
then_events sfd es aborted = aborted

event_loop-cons :
    (sfd : ℕ) (e : Event) (es : List Event) (s : Server)
    → event_loop sfd (e ∷ es) s ≡ then_events sfd es (handle_event sfd e s)
unfolding event_loop
event_loop-cons sfd e es s =
    elim (handle_event sfd e s)
      as (λ r.
        (elim r as (λ _. Outcome Server) [
          | ok s' ↦ event_loop sfd es s'
          | waits ↦ waits
          | aborted ↦ aborted
        ])
        ≡ then_events sfd es r) [ ok s' ↦ refl | waits ↦ refl | aborted ↦ refl ]

rounds_loop-cons :
    (sfd : ℕ) (es : List Event) (rounds : List (List Event)) (s : Server)
    → rounds_loop sfd (es ∷ rounds) s ≡ then_rounds (event_loop sfd es s) (rounds_loop sfd rounds)
unfolding rounds_loop
rounds_loop-cons sfd es rounds s =
    elim (event_loop sfd es s)
      as (λ r.
        (elim r as (λ _. Process) [
          | ok s' ↦ rounds_loop sfd rounds s'
          | waits ↦ waiting
          | aborted ↦ aborted_by
        ])
        ≡ then_rounds r (rounds_loop sfd rounds)) [ ok s' ↦ refl | waits ↦ refl | aborted ↦ refl ]

event_loop-append :
    (sfd : ℕ) (es fs : List Event) (s : Server) (next : Server → Process)
    → then_rounds (event_loop sfd es s) (λ s'. then_rounds (event_loop sfd fs s') next)
      ≡ then_rounds (event_loop sfd (es ++ fs) s) next
event_loop-append sfd [] fs s next = unfold event_loop in refl
event_loop-append sfd (e ∷ es) fs s next =
    rw (event_loop-cons sfd e es s, event_loop-cons sfd e (es ++ fs) s)
      (elim (handle_event sfd e s)
        as (λ r.
          then_rounds (then_events sfd es r) (λ s'. then_rounds (event_loop sfd fs s') next)
          ≡ then_rounds (then_events sfd (es ++ fs) r) next) [
            | ok s' ↦ event_loop-append sfd es fs s' next
            | waits ↦ refl
            | aborted ↦ refl
          ])

rounds_loop-joined :
    (sfd : ℕ) (rounds : List (List Event)) (s : Server)
    → rounds_loop sfd rounds s ≡ then_rounds (event_loop sfd (joined rounds) s) serving
rounds_loop-joined sfd [] s = unfold rounds_loop event_loop in refl
rounds_loop-joined sfd (es ∷ rounds) s =
    rounds_loop-cons sfd es rounds s
    ∙ ap (then_rounds (event_loop sfd es s)) (fun_ext (rounds_loop-joined sfd rounds))
    ∙ event_loop-append sfd es (joined rounds) s serving

-- The calls behind the address succeed.
abbrev pub listens : Calls → Bool
listens c =
    not (int_eq (make_socket_non_blocking c.getfl c.setfl) (minus 1))
    && (not (int_eq c.listen (minus 1))
        && (not (int_eq c.epoll_create (minus 1)) && not (int_eq c.epoll_ctl (minus 1))))

-- With one argument, an address that can be bound and calls that succeed, main serves on the socket of the first such
-- address. When every loop of its rounds comes to its end and no call of them fails for which it
-- aborts, it has then written, in order, what write took of the bytes read from clients, and still listens exactly
-- if no event has closed its socket.
pub main-prints :
    (c : Calls) (before after : List Address) (a : Address) (sfd : ℕ) (rounds : List (List Event))
    → c.getaddrinfo ≡ pos 0
    → c.addresses ≡ before ++ (a ∷ after)
    → unusable before ≡ true
    → a.socket ≡ pos sfd
    → int_eq a.bind (pos 0) ≡ true
    → listens c ≡ true
    → all_settle sfd (joined rounds) ≡ true
    → (s : Server) × (main 2 c rounds ≡ serving s)
      × (s.out ≡ all_printed sfd (joined rounds))
      × (s.listening ≡ not (deaf sfd (joined rounds)))
unfolding main start
main-prints c before after a sfd rounds found at none_before socket binds fine settle =
    let (s, run, out, still) = event_loop-Handled sfd (joined rounds) listening settle in
    let opened : opens a ≡ true = rw socket refl in
    let first = (create_and_bind-first before after a none_before).1 (ground arith) in
    let bound : (create_and_bind c.getaddrinfo c.addresses).ret ≡ pos sfd =
      rw (found, at, first) socket in
    let non_blocking : int_eq (make_socket_non_blocking c.getfl c.setfl) (minus 1) ≡ false =
      ground arith in
    let listened : int_eq c.listen (minus 1) ≡ false = ground arith in
    let created : int_eq c.epoll_create (minus 1) ≡ false = ground arith in
    let added : int_eq c.epoll_ctl (minus 1) ≡ false = ground arith in
    let served : rounds_loop sfd rounds listening ≡ serving s =
      rounds_loop-joined sfd rounds listening ∙ rw run refl in
    (s, rw (bound, start, non_blocking, listened, created, added) served, out, still)
