-- ===== src/EpollEcho/Main.antt =====
-- main of epoll.c: from the command line to the listening socket and the loop. What the calls answer is an argument.
mod Laws
mod Tests
use tpt.Common.{
  ℕ, Bool, true, false, not, Option, none, some, List, [], ◌∷◌, ℤ, pos, negsuc, minus, int_eq, ◌==◌,
  if◌then◌else◌,
}
use tpt.EpollEcho.{
  Address, create_and_bind, make_socket_non_blocking, Event, Server, Outcome, ok, waits, aborted,
  event_loop,
}

-- What getaddrinfo finds, and the results of the two fcntl, listen, epoll_create1 and epoll_ctl.
pub record Calls : Type 0 where
  pub getaddrinfo : ℤ
  pub addresses : List Address
  pub getfl : ℤ
  pub setfl : ℤ
  pub listen : ℤ
  pub epoll_create : ℤ
  pub epoll_ctl : ℤ

-- How the process ends or goes on: exit(EXIT_FAILURE), abort(), or the loop with the server as it is then.
pub data Process : Type 0 where
  failure : Process
  aborted_by : Process
  serving : Server → Process
  waiting : Process

abbrev pub listening : Server
listening = record { watched = []; listening = true; out = [] }

-- Each round is what epoll_wait returns; an error of it is a round with no event. The memory for the events is taken to
-- be there, since main does not test it.
pub rounds_loop : (sfd : ℕ) → List (List Event) → Server → Process
rounds_loop sfd [] s = serving s
rounds_loop sfd (es ∷ rounds) s = elim (event_loop sfd es s) [
  | ok s' ↦ rounds_loop sfd rounds s'
  | waits ↦ waiting
  | aborted ↦ aborted_by
]

-- Behind the command line. The one negative descriptor that socket returns is -1.
pub start : Calls → List (List Event) → Process
start c rounds = elim (create_and_bind c.getaddrinfo c.addresses).ret [
  | negsuc n ↦ aborted_by
  | pos sfd ↦
      if int_eq (make_socket_non_blocking c.getfl c.setfl) (minus 1)
      then aborted_by
      else if int_eq c.listen (minus 1)
      then aborted_by
      else if int_eq c.epoll_create (minus 1)
      then aborted_by
      else if int_eq c.epoll_ctl (minus 1)
      then aborted_by
      else rounds_loop sfd rounds listening
]

pub main : (argc : ℕ) → Calls → List (List Event) → Process
unfolding start
main argc c rounds = if not (argc == 2) then failure else start c rounds
