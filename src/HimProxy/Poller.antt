-- ===== src/HimProxy/Poller.antt =====
-- poller.c: the epoll instance of a child and the registration of sockets with it; and get_orig_dest_addr of
-- network.c. What the calls answer is an argument.
mod Tests
use tpt.Common.{
  ℕ, Bool, true, false, Option, none, some, ℤ, pos, minus, is_neg, ◌==◌, if◌then◌else◌,
}

-- struct poller_info; `events` says whether the array is there.
pub record PollerInfo : Type 0 where
  pub epoll_fd : ℤ
  pub events : Bool
  pub event_size : ℕ

-- The result, what `*poller_info` holds if it is written, and whether the epoll descriptor was closed.
pub record Made : Type 0 where
  pub ret : ℤ
  pub info : Option PollerInfo
  pub closed : Bool

abbrev pub epoll_max_events : ℕ
epoll_max_events = 10000

-- `given` says that the pointer is not NULL; the two `memory` are malloc and calloc. Of a block that has
-- just been allocated, the fields that are not written yet are shown as 0.
unfoldable pub init_poller :
    (given memory : Bool) → (epoll_create : ℤ) → (events_memory : Bool) → Made
init_poller false memory fd events_memory = record { ret = minus 1; info = none; closed = false }
init_poller true false fd events_memory = record { ret = minus 1; info = none; closed = false }
init_poller true true fd events_memory =
    if is_neg fd
    then record {
      ret = minus 2;
      info = some (record { epoll_fd = fd; events = false; event_size = 0 });
      closed = false;
    }
    else if events_memory
    then record {
      ret = pos 0;
      info = some (record { epoll_fd = fd; events = true; event_size = epoll_max_events });
      closed = false;
    }
    else record {
      ret = minus 3;
      info = some (record { epoll_fd = fd; events = false; event_size = epoll_max_events });
      closed = true;
    }

-- destroy_poller closes the descriptor and frees the array, and not the struct.
pub destroy_poller : Option PollerInfo → ℤ × Option PollerInfo
destroy_poller none = (minus 1, none)
destroy_poller (some p) = (pos 0, some (record p { events = false }))

-- The bits that a socket is registered with: EPOLLIN, EPOLLPRI, EPOLLOUT and EPOLLET.
pub record Interest : Type 0 where
  pub input : Bool
  pub pri : Bool
  pub output : Bool
  pub edge : Bool

-- The `switch` on enum event_flag; `none` is `default`.
unfoldable pub interest_of : (event_flag : ℕ) → Option Interest
interest_of flag =
    if flag == 0
    then some (record { input = true; pri = true; output = false; edge = true })
    else if flag == 1
    then some (record { input = false; pri = false; output = true; edge = true })
    else if flag == 2
    then some (record { input = true; pri = true; output = true; edge = true })
    else none

-- The result, and what epoll_ctl is called with, if it is called.
unfoldable pub add_to_poller : (epoll_ctl : ℤ) → (event_flag : ℕ) → ℤ × Option Interest
unfolding interest_of
add_to_poller ctl flag = elim (interest_of flag) [
  | none ↦ (minus 1, none)
  | some bits ↦ (if is_neg ctl then minus 2 else ctl, some bits)
]

-- The address and the port of a client's first destination.
pub record Dest : Type 0 where
  pub ip : Option ℕ
  pub port : ℕ

-- `name` is the address and the port that getsockname finds, in the byte order of the network, and `copied` whether strdup succeeds:
-- its test is on `dest_ip` and not on `*dest_ip`, so a NULL copy goes unnoticed. `swap` is htons.
pub get_orig_dest_addr :
    (getsockname : ℤ) → (name : ℕ × ℕ) → (copied : Bool) → (swap : ℕ → ℕ) → (old : Dest) → ℤ × Dest
get_orig_dest_addr ret (addr, port) copied swap old =
    if is_neg ret
    then (minus 1, old)
    else (ret, record { ip = if copied then some addr else none; port = swap port })
