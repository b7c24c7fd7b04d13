-- ===== src/EventServer.antt =====
-- src/networking/server/server.c: a server over libevent that answers whatever it receives with one response.
-- What libevent and the system calls answer is an argument. A connection is shown by what it holds.
mod Laws
mod Tests
use tpt.Common.{
  ℕ, ◌≡◌, ◌*◌, Bool, true, false, not, ◌&&◌, ◌||◌, Option, none, some, List, [], ◌∷◌, ℤ, pos, minus,
  is_neg, int_eq, if◌then◌else◌,
}

-- Whether the client's socket is open, the struct conn_info allocated, its two events there, and each of them
-- added, so that its callback is called.
pub record Conn : Type 0 where
  pub sock : Bool
  pub cinfo : Bool
  pub ev_read : Bool
  pub ev_write : Bool
  pub read_added : Bool
  pub write_added : Bool

abbrev pub nothing : Conn
nothing = record {
  sock = false;
  cinfo = false;
  ev_read = false;
  ev_write = false;
  read_added = false;
  write_added = false;
}

abbrev pub close : Conn → Conn
close c = record c { sock = false }

-- event_free: an event that is freed is no longer added.
abbrev free_read : Conn → Conn
free_read c = record c { ev_read = false; read_added = false }

abbrev free_write : Conn → Conn
free_write c = record c { ev_write = false; write_added = false }

-- The results of malloc and of the two calls of event_new; the result is whether there is a struct.
pub conn_info_new : (memory ev_read ev_write : Bool) → Conn → Bool × Conn
conn_info_new memory ev_read ev_write c =
    let allocated = record c { cinfo = memory } in
    let with_read = record allocated { ev_read = ev_read } in
    let with_write = record with_read { ev_write = ev_write } in
    if not memory
    then (false, allocated)
    else if not ev_read
    then (false, record with_read { cinfo = false })
    else if not ev_write
    then (false, record (free_read with_write) { cinfo = false })
    else (true, with_write)

pub conn_info_free : Conn → Conn
conn_info_free c = record (free_write (free_read c)) { cinfo = false }

-- One response is sent, whatever send returns, and event_del takes the event away.
pub cli_send_cb : Conn → Conn
cli_send_cb c = record c { write_added = false }

-- recv fails with EAGAIN, or with another errno; or returns 0; or stores bytes, and event_add has this result.
pub data Recv : Type 0 where
  again : Recv
  broken : Recv
  closed : Recv
  got : (event_add : ℤ) → Recv

-- `none` while recv goes on.
pub cli_recv_cb : List Recv → Conn → Option Conn
unfolding conn_info_free
cli_recv_cb [] c = none
cli_recv_cb (again ∷ rs) c = some c
cli_recv_cb (broken ∷ rs) c = some c
cli_recv_cb (closed ∷ rs) c = some (close (conn_info_free c))
cli_recv_cb (got ret ∷ rs) c =
    let rest = cli_recv_cb rs (record c { write_added = true }) in
    if int_eq ret (pos 0) then rest else some (close (conn_info_free c))

-- The results of the calls of srvr_accept_cb.
pub record Accept : Type 0 where
  pub sock : ℤ
  pub fcntl : ℤ
  pub memory : Bool
  pub ev_read : Bool
  pub ev_write : Bool
  pub event_add : ℤ

pub srvr_accept_cb : Accept → Conn
unfolding conn_info_new
srvr_accept_cb a =
    let opened = record nothing { sock = true } in
    let (made, c) = conn_info_new a.memory a.ev_read a.ev_write opened in
    if is_neg a.sock
    then nothing
    else if is_neg a.fcntl
    then close opened
    else if not made
    then close c
    else if not (int_eq a.event_add (pos 0))
    then close c
    else record c { read_added = true }

-- What a connection goes through: it is accepted, and the callbacks of its added events are called.
pub data Life : Conn → Type 0 where
  accepted : (a : Accept) → Life (srvr_accept_cb a)
  received :
      (c c' : Conn) (rs : List Recv)
      → Life c
      → c.read_added ≡ true
      → cli_recv_cb rs c ≡ some c'
      → Life c'
  sent : (c : Conn) → Life c → c.write_added ≡ true → Life (cli_send_cb c)

-- The results of the calls of run_server, in their order.
pub record Calls : Type 0 where
  pub event_base_new : Bool
  pub socket : ℤ
  pub fcntl : ℤ
  pub bind : ℤ
  pub listen : ℤ
  pub event_new : Bool
  pub event_add : ℤ
  pub dispatch : ℤ

-- Whether run_server returns; it ends the process with status 1 otherwise.
pub run_server : Calls → Bool
run_server c =
    if not c.event_base_new
    then false
    else if is_neg c.socket
    then false
    else if is_neg c.fcntl
    then false
    else if is_neg c.bind
    then false
    else if is_neg c.listen
    then false
    else if not c.event_new
    then false
    else if is_neg c.event_add
    then false
    else if is_neg c.dispatch
    then false
    else true
