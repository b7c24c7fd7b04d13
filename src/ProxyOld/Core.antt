-- ===== src/ProxyOld/Core.antt =====
-- proxy_core.c: a child process sets up its work queues and pollers, and accepts clients. What the calls
-- answer is an argument.
pub mod Laws
mod Tests
use tpt.Common.{
  ℕ, Bool, true, false, not, ◌&&◌, ◌||◌, Option, none, some, List, [], ◌∷◌, ◌++◌, ℤ, pos, minus,
  is_neg, int_eq, if◌then◌else◌,
}
use tpt.HimProxy.{Run, done, running, fault}

-- The results of the three calls of WorkQInit.
pub init_workq : (parse forward response : ℤ) → ℤ
init_workq parse forward response =
    if not (int_eq parse (pos 0))
    then minus 1
    else if not (int_eq forward (pos 0))
    then minus 1
    else if not (int_eq response (pos 0))
    then minus 1
    else pos 0

-- `client` and `os` are what init_poller returns for the two pollers.
pub intialize_proxy : (workq client os : ℤ) → ℤ
intialize_proxy workq client os =
    if is_neg workq
    then minus 1
    else if is_neg client
    then minus 1
    else if is_neg os
    then minus 1
    else pos 0

-- What happens to a socket that accept has returned: the results of set_socket_non_blocking and of
-- add_to_poller, and whether calloc finds memory for its struct.
pub record Accepted : Type 0 where
  pub sock : ℕ
  pub non_blocking : ℤ
  pub memory : Bool
  pub added : ℤ

-- The result, and whether the struct stays; a NULL that calloc returns is used: `fault`.
pub add_to_request_poller : Accepted → Run (ℤ × Bool)
add_to_request_poller a =
    if is_neg a.non_blocking
    then done (minus 1, false)
    else if not a.memory
    then fault
    else if is_neg a.added
    then done (minus 1, false)
    else done (pos 0, true)

-- accept() fails with EINTR, or with another errno, or it returns a socket.
pub data Accept : Type 0 where
  interrupted : Accept
  broken : Accept
  accepted : Accepted → Accept

-- The sockets that are registered with the poller, and those that have been closed.
pub record Child : Type 0 where
  pub registered : List ℕ
  pub closed : List ℕ

pub after_add : ℕ → ℤ × Bool → Child → Child
after_add sock (ret, keeps) c =
    let c' = if keeps then record c { registered = c.registered ++ (sock ∷ []) } else c in
    if is_neg ret then record c' { closed = c'.closed ++ (sock ∷ []) } else c'

-- It ends, with the process, only when accept fails.
pub accept_loop : List Accept → Child → Run Child
accept_loop [] c = running
accept_loop (interrupted ∷ rs) c = accept_loop rs c
accept_loop (broken ∷ rs) c = done c
accept_loop (accepted a ∷ rs) c = elim (add_to_request_poller a) [
  | done r ↦ accept_loop rs (after_add a.sock r c)
  | running ↦ running
  | fault ↦ fault
]

-- `signals` is what register_all_signal_handler returns, `init` what intialize_proxy does.
pub start_proxy : (signals init : ℤ) → List Accept → Child → Run Child
unfolding accept_loop
start_proxy signals init rs c =
    if is_neg signals then done c else if is_neg init then done c else accept_loop rs c
