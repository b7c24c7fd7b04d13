-- ===== src/SpliceProxy/Transparent.antt =====
-- networking/splice/sp_trans_proxy: the proxy that connects to the server from the client's address. sproxy_net.c has
-- tcp_transparent_connect_to_server, and tunnel_the_request of sproxy_core.c calls it; all else has the text of sp_exp.
mod Laws
mod Tests
use tpt.Common.{
  ℕ, Bool, true, false, not, ◌||◌, Option, none, some, ℤ, pos, minus, is_neg, if◌then◌else◌,
}
use tpt.SpliceProxy.Net.{bad_port, opened, Socket}
use tpt.SpliceProxy.Tunnel.{Tunnel, Request, Closed}
use tpt.SpliceProxy.Tunnel

-- The results of socket, of setsockopt for IP_TRANSPARENT, of inet_aton for the client and for the server, and of bind
-- and connect. The result of setsockopt for SO_REUSEADDR is not looked at.
pub record Calls : Type 0 where
  pub socket : ℤ
  pub transparent : ℤ
  pub client_aton : Bool
  pub bind : ℤ
  pub aton : Bool
  pub connect : ℤ

-- `given` says that the server's address is not NULL. The test for the other pointer is on the function `socket`.
-- `*local_socket` is written at the end.
unfoldable pub tcp_transparent_connect_to_server : (given : Bool) → (port : ℤ) → Calls → Socket
tcp_transparent_connect_to_server given port c =
    let failed : Socket = record { ret = minus 1; left_open = opened c.socket; passed = none } in
    if not given || bad_port port
    then record { ret = minus 1; left_open = none; passed = none }
    else if is_neg c.socket
    then record { ret = minus 1; left_open = none; passed = none }
    else if is_neg c.transparent
    then failed
    else if not c.client_aton
    then failed
    else if is_neg c.bind
    then failed
    else if not c.aton
    then failed
    else if is_neg c.connect
    then failed
    else record { ret = pos 0; left_open = opened c.socket; passed = some c.socket }

-- The socket to the server that is still open when the sockets `closed` are.
unfoldable pub open_behind : Option Closed → Option ℕ → Option ℕ
open_behind none fd = fd
open_behind (some closed) fd = if closed.server then none else fd

-- What the run closes, with what has gone through, and the socket to the server that it leaves open. The `connect` of
-- the request is replaced by the result here; the rest of its answers are for the text behind it.
unfoldable pub tunnel_the_request :
    (port : ℤ) → Calls → (len : ℕ) → Request → Tunnel → (Option Closed × Tunnel) × Option ℕ
tunnel_the_request port c len r t =
    let s = tcp_transparent_connect_to_server true port c in
    let run = Tunnel.tunnel_the_request len (record r { connect = s.ret }) t in
    (run, open_behind run.0 s.left_open)
