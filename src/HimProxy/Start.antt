-- ===== src/HimProxy/Start.antt =====
-- The event loop of a child, start_proxy and init_proxy of core.c, with the functions for connection records, which
-- nothing calls. What the calls answer is an argument.
mod Laws
mod Tests
use tpt.Common.{
  ℕ, Bool, true, false, not, Option, none, some, List, [], ◌∷◌, ℤ, pos, minus, is_neg, int_eq,
  if◌then◌else◌,
}
use tpt.HimProxy.{Run, done, running, fault}
use tpt.HimProxy.Events.{EpollEvent, handle_epoll_events}
use tpt.HimProxy.Poller.{Made, init_poller, add_to_poller}

-- malloc of the poller, epoll_create, calloc of its events, and epoll_ctl.
pub record Setup : Type 0 where
  pub memory : Bool
  pub epoll_create : ℤ
  pub events_memory : Bool
  pub epoll_ctl : ℤ

abbrev pub event_in : ℕ
event_in = 0

-- The result of register_all_signal_handler is not looked at.
pub init_proxy : Setup → ℤ
init_proxy s =
    if is_neg (init_poller true s.memory s.epoll_create s.events_memory).ret
    then minus 1
    else if is_neg (add_to_poller s.epoll_ctl event_in).0
    then minus 3
    else (add_to_poller s.epoll_ctl event_in).0

-- epoll_wait fails with EINTR, or with another errno, or returns events.
pub data Wait : Type 0 where
  interrupted : Wait
  broken : Wait
  ready : List EpollEvent → Wait

-- The results of handle_epoll_events, which are only logged.
pub event_loop : List Wait → List ℤ
event_loop [] = []
event_loop (interrupted ∷ ws) = event_loop ws
event_loop (broken ∷ ws) = event_loop ws
event_loop (ready evs ∷ ws) = handle_epoll_events (some evs) ∷ event_loop ws

-- The child has left with this status, or it still waits, and what its rounds came to.
pub data Child : Type 0 where
  exited : (status : ℕ) → Child
  serving : List ℤ → Child

pub start_proxy : Setup → List Wait → Child
unfolding event_loop
start_proxy s ws = if not (int_eq (init_proxy s) (pos 0)) then exited 0 else serving (event_loop ws)

-- The result, and whether the record is there. `given` says that the argument is not NULL, `first` and `second` that
-- calloc finds memory. When the second calloc fails, the caller's variable is given to free: `fault`.
pub create_proxy_conn_info : (given first second : Bool) → Run (ℤ × Bool)
create_proxy_conn_info false first second = done (minus 1, false)
create_proxy_conn_info true false second = done (minus 2, false)
create_proxy_conn_info true true false = fault
create_proxy_conn_info true true true = done (pos 0, true)

-- The sockets in a connection record and in its client record.
pub record Sockets : Type 0 where
  pub poll_sock : ℕ
  pub client_sock : ℕ

-- `ret` is set to -1 and not again. The argument is `none` for NULL; the destination that get_orig_dest_addr fills in is left out.
pub fill_proxy_conn_info : Option Sockets → (client_sock : ℕ) → ℤ × Option Sockets
fill_proxy_conn_info none sock = (minus 1, none)
fill_proxy_conn_info (some s) sock =
    (minus 1, some (record { poll_sock = sock; client_sock = sock }))

-- The result, and the blocks that have been freed. `*proxy_info` may be NULL, 0.
pub free_proxy_info : Option ℕ → ℤ × List ℕ
free_proxy_info none = (minus 1, [])
free_proxy_info (some p) = (pos 0, p ∷ [])
