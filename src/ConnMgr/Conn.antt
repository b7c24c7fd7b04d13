-- ===== src/ConnMgr/Conn.antt =====
-- src/networking/conn_mgr/conn_mgr_conn.c: a connection object for one TCP socket. What the system calls
-- and `malloc` answer is an argument, `Replies`, with one entry for each call that a run can make, and
-- for the repeated `poll` the list of its answers; a run that still waits for `poll` when the list ends
-- is `none`. `World` is what the calls change: the global `conn_mgr_conn_errno`, whether the socket has
-- been closed, and whether it is in non-blocking mode. The address that the socket is connected to and
-- the value that `getsockopt` stores in a dead local change nothing of this and are left out.
pub mod Laws
mod Tests
use tpt.Common.{
  ℕ, zero, suc, Bool, true, false, Option, none, some, List, [], ◌∷◌, if◌then◌else◌, ℤ, pos, negsuc,
  minus, is_neg,
}
use tpt.ConnMgr.Errors.{
  ConnMgrErr, success, null_params, mem_alloc, conn_socket, conn_setnonblocking, conn_setblocking,
  conn_connect, conn_timedout, conn_poll, conn_connecting,
}

pub record World : Type 0 where
  pub errno : ConnMgrErr
  pub closed : Bool
  pub nonblocking : Bool

-- The answers to fcntl(F_GETFL) and fcntl(F_SETFL).
pub record Fcntl : Type 0 where
  pub getfl : ℤ
  pub setfl : ℤ

-- connect() returns 0, or fails with EINPROGRESS, or fails with another errno.
pub data Connect : Type 0 where
  connected : Connect
  in_progress : Connect
  failed : (err : ℕ) → Connect

-- poll() fails with EINTR, or with another errno; it returns 0; or it returns the number of ready sockets, `1 + n`,
-- with or without POLLOUT among the events of this one.
pub data Poll : Type 0 where
  interrupted : Poll
  broken : (err : ℕ) → Poll
  nothing : Poll
  ready : (n : ℕ) → (pollout : Bool) → Poll

pub record Replies : Type 0 where
  pub socket : ℤ
  pub before : Fcntl
  pub connect : Connect
  pub polls : List Poll
  pub after : Fcntl
  pub memory : Bool  -- whether malloc finds some

set_socket_non_blocking : Fcntl → World → ℤ × World
set_socket_non_blocking r w =
    if is_neg r.getfl
    then (minus 1, w)
    else if is_neg r.setfl
    then (minus 1, w)
    else (r.setfl, record w { nonblocking = true })

set_socket_blocking : Fcntl → World → ℤ × World
set_socket_blocking r w =
    if is_neg r.getfl
    then (minus 1, w)
    else if is_neg r.setfl
    then (minus 1, w)
    else (r.setfl, record w { nonblocking = false })

poll_for_connect : List Poll → World → Option (ℤ × World)
poll_for_connect [] w = none
poll_for_connect (interrupted ∷ rest) w = poll_for_connect rest w
poll_for_connect (broken err ∷ rest) w = some (minus 1, record w { errno = conn_poll })
poll_for_connect (nothing ∷ rest) w = some (minus 1, record w { errno = conn_timedout })
poll_for_connect (ready n true ∷ rest) w = some (pos (suc n), w)
poll_for_connect (ready n false ∷ rest) w = some (minus 1, record w { errno = conn_connecting })

-- The end of tcp_connect_with_timeout, after `connect`, with `ret` as it stands there.
back_to_blocking : Fcntl → ℤ → World → ℤ × World
unfolding set_socket_blocking
back_to_blocking r ret w =
    let (b, w') = set_socket_blocking r w in
    if is_neg b then (minus 1, record w' { errno = conn_setblocking }) else (ret, w')

connect_on : Replies → Connect → World → Option (ℤ × World)
unfolding back_to_blocking poll_for_connect
connect_on r connected w = some (back_to_blocking r.after (pos 0) w)
connect_on r in_progress w = elim (poll_for_connect r.polls w) [
  | none ↦ none
  | some (ret, w') ↦ some (back_to_blocking r.after ret w')
]
connect_on r (failed err) w = some (pos 0, record w { errno = conn_connect })

tcp_connect_with_timeout : Replies → World → Option (ℤ × World)
unfolding set_socket_non_blocking connect_on
tcp_connect_with_timeout r w =
    let (a, w') = set_socket_non_blocking r.before w in
    if is_neg a
    then some (minus 1, record w' { errno = conn_setnonblocking })
    else connect_on r r.connect w'

-- A conn_mgr_conn_t is its `fd`; `none` is NULL.
abbrev pub Conn : Type 0
Conn = Option ℤ

-- After tcp_connect_with_timeout in conn_mgr_conn_new.
new_from : Replies → ℤ × World → Conn × World
new_from r (ret, w) =
    if is_neg ret
    then (none, record w { closed = true })
    else if r.memory
    then (some r.socket, record w { errno = success })
    else (none, record w { errno = mem_alloc; closed = true })

-- `ip` says whether an address is given.
pub conn_new : (ip : Bool) → Replies → World → Option (Conn × World)
unfolding tcp_connect_with_timeout new_from
conn_new false r w = some (none, w)
conn_new true r w =
    if is_neg r.socket
    then some (none, record w { errno = conn_socket })
    else elim (tcp_connect_with_timeout r w) [ none ↦ none | some out ↦ some (new_from r out) ]

pub conn_destroy : Conn → World → World
conn_destroy none w = w
conn_destroy (some fd) w = record w { errno = success; closed = true }

pub conn_get_fd : Conn → World → ℤ × World
conn_get_fd none w = (minus 1, record w { errno = null_params })
conn_get_fd (some fd) w = (fd, record w { errno = success })
