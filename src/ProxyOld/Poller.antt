-- ===== src/ProxyOld/Poller.antt =====
-- proxy_poller.c: the thread that waits for events on the clients' sockets and puts them into the work
-- queue. What the calls answer is an argument.
pub mod Laws
mod Tests
use tpt.Common.{
  ℕ, Bool, true, false, not, ◌&&◌, ◌||◌, Option, none, some, List, [], ◌∷◌, ◌++◌, ℤ, pos, minus,
  is_neg, int_eq, ◌==◌, if◌then◌else◌,
}

-- What init_poller leaves: its result, whether the epoll descriptor is open and the array of events there,
-- and whether the thread runs.
pub record Started : Type 0 where
  pub ret : ℤ
  pub epoll_open : Bool
  pub events : Bool
  pub thread : Bool

-- pthread_create returns 0 or a positive error number; the test is for a negative one.
pub create_poller_thread : (pthread_create : ℤ) → ℤ
create_poller_thread pthread = if is_neg pthread then minus 1 else pos 0

abbrev nothing_left : Started
nothing_left = record { ret = minus 1; epoll_open = false; events = false; thread = false }

pub init_poller :
    (given : Bool) → (epoll_create : ℤ) → (memory : Bool) → (pthread_create : ℤ) → Started
unfolding create_poller_thread
init_poller false epoll memory pthread = nothing_left
init_poller true epoll memory pthread =
    if is_neg epoll
    then nothing_left
    else if not memory
    then nothing_left
    else if is_neg (create_poller_thread pthread)
    then nothing_left
    else record { ret = pos 0; epoll_open = true; events = true; thread = int_eq pthread (pos 0) }

unfoldable pub destroy_poller :
    (given : Bool) → (pthread_cancel pthread_join : ℤ) → Started → Started
destroy_poller false cancel join s = record s { ret = minus 1 }
destroy_poller true cancel join s =
    let freed = record s { epoll_open = false; events = false } in
    if not (int_eq cancel (pos 0))
    then record freed { ret = minus 1 }
    else if not (int_eq join (pos 0))
    then record freed { ret = minus 1; thread = false }
    else record freed { ret = pos 0; thread = false }

-- The clients of a child process: the sockets that are open with a struct proxy_info each, and the work queue,
-- whose items are such structs. A socket stands for its struct.
pub record Clients : Type 0 where
  pub live : List ℕ
  pub workq : List ℕ

-- An event: its socket, EPOLLERR and EPOLLHUP, and what WorkQAdd returns for it.
pub record Event : Type 0 where
  pub sock : ℕ
  pub err : Bool
  pub hup : Bool
  pub added : ℤ

abbrev pub without : ℕ → List ℕ → List ℕ
without s [] = []
without s (x ∷ xs) = if x == s then without s xs else x ∷ without s xs

-- close and free_proxy_info, or WorkQAdd.
pub handle_event : Event → Clients → Clients
handle_event e c =
    if e.err || e.hup
    then record c { live = without e.sock c.live }
    else if int_eq e.added (pos 0)
    then record c { workq = c.workq ++ (e.sock ∷ []) }
    else c

-- The result stays 0 in the loop; `given` says that neither pointer is NULL.
pub handle_epoll_events : (given : Bool) → List Event → Clients → ℤ × Clients
unfolding handle_event
handle_epoll_events false es c = (minus 1, c)
handle_epoll_events true [] c = (pos 0, c)
handle_epoll_events true (e ∷ es) c = handle_epoll_events true es (handle_event e c)

-- epoll_wait fails with EINTR, or with another errno, or it returns events.
pub data Wait : Type 0 where
  interrupted : Wait
  broken : Wait
  ready : List Event → Wait

-- The clients, and whether the thread has ended the process, which it does in any end of its own.
pub proxy_default_poller : (given : Bool) → List Wait → Clients → Bool × Clients
unfolding handle_epoll_events
proxy_default_poller false ws c = (true, c)
proxy_default_poller true [] c = (false, c)
proxy_default_poller true (interrupted ∷ ws) c = proxy_default_poller true ws c
proxy_default_poller true (broken ∷ ws) c = (true, c)
proxy_default_poller true (ready es ∷ ws) c =
    proxy_default_poller true ws (handle_epoll_events true es c).1
