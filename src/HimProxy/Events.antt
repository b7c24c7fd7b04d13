-- ===== src/HimProxy/Events.antt =====
-- The event dispatch of core.c: handle_epoll_events and what it calls. handle_client_data has no definition in the
-- source; what it returns is an argument.
mod Laws
mod Tests
use tpt.Common.{
  ℕ, Bool, true, false, ◌||◌, Option, none, some, List, [], ◌∷◌, ℤ, pos, minus, is_neg,
  if◌then◌else◌,
}
use tpt.HimProxy.{Run, done, running, fault}

-- enum poll_side
pub data PollSide : Type 0 where
  proxy_side : PollSide
  client_side : PollSide
  server_side : PollSide

-- The bits of `events` that the handlers test: EPOLLERR, EPOLLHUP, EPOLLIN and EPOLLPRI.
pub record Bits : Type 0 where
  pub err : Bool
  pub hup : Bool
  pub input : Bool
  pub pri : Bool

-- struct epoll_event, with the side that its context names, and what the call that reads the socket
-- returns for it.
pub record EpollEvent : Type 0 where
  pub side : PollSide
  pub events : Bits
  pub inner : ℤ

-- accept4() fails with EINTR, with EAGAIN, or with another errno, or it returns a socket.
pub data Accept : Type 0 where
  interrupted : Accept
  again : Accept
  broken : Accept
  accepted : (sock : ℕ) → Accept

abbrev also : ℕ → Run (ℤ × List ℕ) → Run (ℤ × List ℕ)
also sock (done (ret, socks)) = done (ret, sock ∷ socks)
also sock running = running
also sock fault = fault

-- The result, and the sockets that are open afterwards: the loop hands them to nobody.
pub accept_and_add_conn_to_poller : List Accept → Run (ℤ × List ℕ)
accept_and_add_conn_to_poller [] = running
accept_and_add_conn_to_poller (interrupted ∷ rs) = accept_and_add_conn_to_poller rs
accept_and_add_conn_to_poller (again ∷ rs) = done (pos 0, [])
accept_and_add_conn_to_poller (broken ∷ rs) = done (minus 1, [])
accept_and_add_conn_to_poller (accepted sock ∷ rs) = also sock (accept_and_add_conn_to_poller rs)

-- `accepted` is what accept_and_add_conn_to_poller returns if it is called.
pub handle_proxy_listen_event : (accepted : ℤ) → Option Bits → ℤ
handle_proxy_listen_event ret none = minus 1
handle_proxy_listen_event ret (some ev) =
    if ev.err
    then minus 2
    else if ev.hup
    then minus 3
    else if ev.input || ev.pri
    then (if is_neg ret then minus 4 else ret)
    else minus 5

-- `handled` is what handle_client_data returns if it is called.
pub handle_client_event : (handled : ℤ) → Option Bits → ℤ
handle_client_event ret none = minus 1
handle_client_event ret (some ev) =
    if ev.err
    then minus 2
    else if ev.hup
    then minus 3
    else if ev.input || ev.pri
    then (if is_neg ret then minus 4 else ret)
    else minus 4

-- A round of the loop, with `ret` as it stands.
pub handle_event : ℤ → EpollEvent → ℤ
unfolding handle_proxy_listen_event handle_client_event
handle_event ret ev = elim ev.side [
  | proxy_side ↦
      let r = handle_proxy_listen_event ev.inner (some ev.events) in if is_neg r then minus 2 else r
  | client_side ↦
      let r = handle_client_event ev.inner (some ev.events) in if is_neg r then minus 3 else r
  | server_side ↦ ret
]

events_loop : ℤ → List EpollEvent → ℤ
unfolding handle_event
events_loop ret [] = ret
events_loop ret (ev ∷ evs) = events_loop (handle_event ret ev) evs

pub handle_epoll_events : Option (List EpollEvent) → ℤ
unfolding events_loop
handle_epoll_events none = minus 1
handle_epoll_events (some evs) = events_loop (pos 0) evs
