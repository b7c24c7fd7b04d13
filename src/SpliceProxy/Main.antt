-- ===== src/SpliceProxy/Main.antt =====
-- sproxy_main.c: main and init_workq. The work queue comes from outside the repository, so what WorkQInit and
-- WorkQAdd return is an argument. calloc is taken to succeed, since main does not test it.
mod Laws
mod Tests
use tpt.Common.{
  ℕ, Bool, true, false, not, List, [], ◌∷◌, ◌++◌, ℤ, pos, minus, is_neg, int_eq, ltb, if◌then◌else◌,
}
use tpt.SpliceProxy.Net.{Socket, Calls, tcp_bind_and_listen}

-- accept fails, or returns a socket; then come the results of set_socket_non_blocking and of WorkQAdd.
pub data Accept : Type 0 where
  failed : Accept
  accepted : (client_socket : ℕ) → (non_blocking add : ℤ) → Accept

-- The sockets in the work queue, those that main has closed, and those that the queue has refused.
pub record Clients : Type 0 where
  pub tunnel_workq : List ℕ
  pub closed : List ℕ
  pub refused : List ℕ

-- A round of the loop of main.
pub accept_client : Accept → Clients → Clients
accept_client failed c = c
accept_client (accepted sock non_blocking add) c =
    if is_neg non_blocking
    then record c { closed = c.closed ++ (sock ∷ []) }
    else if int_eq add (pos 0)
    then record c { tunnel_workq = c.tunnel_workq ++ (sock ∷ []) }
    else record c { refused = c.refused ++ (sock ∷ []) }

pub accept_loop : List Accept → Clients → Clients
accept_loop [] c = c
accept_loop (a ∷ rest) c = accept_loop rest (accept_client a c)

-- `added` is what WorkQInit returns.
pub init_workq : (added : ℤ) → ℤ
init_workq added = if not (int_eq added (pos 0)) then minus 1 else pos 0

-- The process has ended, or stands in the loop.
pub data Process : Type 0 where
  exited : (status : ℕ) → Process
  waiting : Clients → Process

abbrev pub no_clients : Clients
no_clients = record { tunnel_workq = []; closed = []; refused = [] }

pub main : (argc : ℕ) → (added : ℤ) → (bind_port : ℤ) → Calls → List Accept → Process
unfolding init_workq accept_loop
main argc added bind_port c rest =
    if ltb argc 7
    then exited 1
    else if not (int_eq (init_workq added) (pos 0))
    then exited 1
    else if not (int_eq (Socket.ret (tcp_bind_and_listen true bind_port c)) (pos 0))
    then exited 1
    else waiting (accept_loop rest no_clients)
