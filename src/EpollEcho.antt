-- ===== src/EpollEcho.antt =====
-- src/system/poller/epoll.c: a server that writes what its clients send to the standard output. What the calls
-- answer is an argument. getnameinfo and the messages are left out.
mod Binding
mod Laws
mod Main
mod Tests
use tpt.Common.{
  ℕ, Bool, true, false, not, ◌&&◌, ◌||◌, Option, none, some, List, [], ◌∷◌, ◌++◌, take, ℤ, pos,
  minus, int_eq, ◌==◌, if◌then◌else◌,
}

-- What socket() and bind() return for an address that getaddrinfo has found.
pub record Address : Type 0 where
  pub socket : ℤ
  pub bind : ℤ

-- The loop over the addresses: the socket that is bound, if any, with the sockets that have been closed.
pub bind_loop : List Address → Option ℤ × List ℤ
bind_loop [] = (none, [])
bind_loop (a ∷ rest) =
    let (found, closed) = bind_loop rest in
    if int_eq a.socket (minus 1)
    then (found, closed)
    else if int_eq a.bind (pos 0)
    then (some a.socket, [])
    else (found, a.socket ∷ closed)

-- What create_and_bind leaves: its result, the sockets that it has closed, and whether the list of
-- addresses has been freed.
pub record Bound : Type 0 where
  pub ret : ℤ
  pub closed : List ℤ
  pub freed : Bool

-- Behind the loop, for a getaddrinfo that succeeded.
abbrev pub bound : Option ℤ × List ℤ → Bound
bound (none, closed) = record { ret = minus 1; closed = closed; freed = false }
bound (some sfd, closed) = record { ret = sfd; closed = closed; freed = true }

pub create_and_bind : (getaddrinfo : ℤ) → List Address → Bound
unfolding bind_loop
create_and_bind s addresses =
    if not (int_eq s (pos 0))
    then record { ret = minus 1; closed = []; freed = false }
    else bound (bind_loop addresses)

-- The results of fcntl(F_GETFL) and fcntl(F_SETFL).
pub make_socket_non_blocking : (getfl setfl : ℤ) → ℤ
make_socket_non_blocking getfl setfl =
    if int_eq getfl (minus 1) then minus 1 else if int_eq setfl (minus 1) then minus 1 else pos 0

-- What a run comes to: it goes on or waits, or abort() has been called.
pub data Outcome (A : Type 0) : Type 0 where
  ok : A → Outcome A
  waits : Outcome A
  aborted : Outcome A

-- read fails with EAGAIN, or with another errno, or returns 0, or stores bytes, of which write then takes some,
-- unless it fails.
pub data Read : Type 0 where
  again : Read
  broken : Read
  end_of_file : Read
  got : (bytes : List ℕ) → (written : Option ℕ) → Read

also : List ℕ → Outcome (Bool × List ℕ) → Outcome (Bool × List ℕ)
also bytes (ok (finished, out)) = ok (finished, bytes ++ out)
also bytes waits = waits
also bytes aborted = aborted

-- The flag `done`, and what has gone to the standard output.
pub read_loop : List Read → Outcome (Bool × List ℕ)
unfolding also
read_loop [] = waits
read_loop (again ∷ rs) = ok (false, [])
read_loop (broken ∷ rs) = ok (true, [])
read_loop (end_of_file ∷ rs) = ok (true, [])
read_loop (got bytes none ∷ rs) = aborted
read_loop (got bytes (some n) ∷ rs) = also (take n bytes) (read_loop rs)

-- accept fails, or returns a socket, for which make_socket_non_blocking and epoll_ctl return these.
pub data Accept : Type 0 where
  failed : Accept
  accepted : (fd : ℕ) → (non_blocking epoll_ctl : ℤ) → Accept

-- The sockets that the loop adds to those that are watched.
pub accept_loop : List Accept → (watched : List ℕ) → Outcome (List ℕ)
accept_loop [] fds = waits
accept_loop (failed ∷ rs) fds = ok fds
accept_loop (accepted fd non_blocking ctl ∷ rs) fds =
    let rest = accept_loop rs (fds ++ (fd ∷ [])) in
    if int_eq non_blocking (minus 1)
    then aborted
    else if int_eq ctl (minus 1)
    then aborted
    else rest

-- An event with its bits, and what the calls answer that it leads to.
pub record Event : Type 0 where
  pub fd : ℕ
  pub err : Bool
  pub hup : Bool
  pub input : Bool
  pub accepts : List Accept
  pub reads : List Read

-- The clients' sockets that are open and watched, whether the listening socket is, and the standard output.
pub record Server : Type 0 where
  pub watched : List ℕ
  pub listening : Bool
  pub out : List ℕ

abbrev pub without : ℕ → List ℕ → List ℕ
without s [] = []
without s (x ∷ xs) = if x == s then without s xs else x ∷ without s xs

pub closed_fd : (sfd fd : ℕ) → Server → Server
closed_fd sfd fd s =
    if sfd == fd
    then record s { listening = false }
    else record s { watched = without fd s.watched }

-- The body of the loop over the events, for the listening socket `sfd`.
pub handle_event : (sfd : ℕ) → Event → Server → Outcome Server
unfolding closed_fd read_loop accept_loop
handle_event sfd e s =
    if e.err || (e.hup || not e.input)
    then ok (closed_fd sfd e.fd s)
    else if sfd == e.fd
    then elim (accept_loop e.accepts s.watched) [
      | ok fds ↦ ok (record s { watched = fds })
      | waits ↦ waits
      | aborted ↦ aborted
    ]
    else elim (read_loop e.reads) [
      | ok (finished, out) ↦
          let s' = record s { out = s.out ++ out } in
          ok (if finished then closed_fd sfd e.fd s' else s')
      | waits ↦ waits
      | aborted ↦ aborted
    ]

pub event_loop : (sfd : ℕ) → List Event → Server → Outcome Server
unfolding handle_event
event_loop sfd [] s = ok s
event_loop sfd (e ∷ es) s = elim (handle_event sfd e s) [
  | ok s' ↦ event_loop sfd es s'
  | waits ↦ waits
  | aborted ↦ aborted
]
