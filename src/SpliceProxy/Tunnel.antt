-- ===== src/SpliceProxy/Tunnel.antt =====
-- sproxy_core.c: a connection of the proxy, proxy_poll_and_tunnel with its two ways and tunnel_the_request
-- around it. What the system calls answer is an argument; free() of the connection's record is left out.
pub mod Kept
pub mod Laws
mod Tests
use tpt.Common.{
  ℕ, Bool, true, false, Option, none, some, List, [], ◌∷◌, ◌++◌, ℤ, pos, minus, is_neg, int_eq,
  if◌then◌else◌,
}
use tpt.SpliceProxy.{after_poll, Recv, proxy_recv_and_send}
use tpt.SpliceProxy.Splice.{Flow, In, make_splice}

-- What the server's socket has taken from the client, and the way from the server to the client.
pub record Tunnel : Type 0 where
  pub to_server : List ℕ
  pub flow : Flow

abbrev pub Tunneled : Type 0
Tunneled = Option ℤ × Tunnel

-- A round of the loop: poll fails or times out, or there is input from the client, with the answers that
-- proxy_recv_and_send gets, or from the server alone, with those of make_splice, or neither.
pub data Event : Type 0 where
  poll_failed : Event
  poll_timed_out : Event
  client : List Recv → Event
  server : List In → Event
  quiet : Event

pub tunnel_loop : (len : ℕ) → List Event → Tunnel → Tunneled
unfolding proxy_recv_and_send make_splice
tunnel_loop len [] t = (none, t)
tunnel_loop len (poll_failed ∷ es) t = (some (minus 1), t)
tunnel_loop len (poll_timed_out ∷ es) t = (some (minus 1), t)
tunnel_loop len (client rs ∷ es) t =
    let (ret, out) = proxy_recv_and_send rs in
    let t' = record t { to_server = t.to_server ++ out } in
    after_poll ret t' (tunnel_loop len es t')
tunnel_loop len (server is ∷ es) t =
    let (ret, flow) = make_splice true len is t.flow in
    let t' = record t { flow = flow } in after_poll ret t' (tunnel_loop len es t')
tunnel_loop len (quiet ∷ es) t = tunnel_loop len es t

-- `pipe` is what pipe() returns, `len` is g_splice_size.
pub proxy_poll_and_tunnel : (pipe : ℤ) → (len : ℕ) → List Event → Tunnel → Tunneled
unfolding tunnel_loop
proxy_poll_and_tunnel pipe len es t =
    if int_eq pipe (pos 0) then tunnel_loop len es t else (some (minus 1), t)

-- The results of tcp_connect_to_server and of set_socket_non_blocking, and the answers behind them.
pub record Request : Type 0 where
  pub connect : ℤ
  pub non_blocking : ℤ
  pub pipe : ℤ
  pub events : List Event

-- Whether close() has been called on client_socket and on os_socket.
pub record Closed : Type 0 where
  pub client : Bool
  pub server : Bool

-- label1, and label.
abbrev pub client_only : Closed
client_only = record { client = true; server = false }

abbrev pub both : Closed
both = record { client = true; server = true }

-- What the tunnel's result makes tunnel_the_request close; `none` while the tunnel runs.
pub tunnel_exit : Option ℤ → Option Closed
tunnel_exit none = none
tunnel_exit (some ret) =
    if is_neg ret then some both else if int_eq ret (pos 0) then some both else some client_only

-- The sockets that the run has closed at its end, `none` while it runs, with what has gone through. The source
-- reports a NULL argument and reads through it all the same, so the argument is taken to be given.
pub tunnel_the_request : (len : ℕ) → Request → Tunnel → Option Closed × Tunnel
unfolding proxy_poll_and_tunnel tunnel_exit
tunnel_the_request len r t =
    if int_eq r.connect (pos 0)
    then (if is_neg r.non_blocking
        then (some both, t)
        else let (ret, t') = proxy_poll_and_tunnel r.pipe len r.events t in (tunnel_exit ret, t'))
    else (some client_only, t)
