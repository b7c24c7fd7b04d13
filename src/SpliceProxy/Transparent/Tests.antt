-- ===== src/SpliceProxy/Transparent/Tests.antt =====
-- A server that refuses the connection.
use tpt.Common.{◌≡◌, refl, true, false, some, [], pos, minus}
use tpt.SpliceProxy.Tunnel.{Tunnel, Request, client_only, both}
use tpt.SpliceProxy.Tunnel.Laws.{tunnel_result}
use mathlib.Core.Option
use tpt.SpliceProxy.Transparent.{Calls, tunnel_the_request}
use tpt.SpliceProxy.Transparent.Laws.{connects, still_open, tunnel_the_request-leaves}

abbrev refused : Calls
refused = record {
  socket = pos 6;
  transparent = pos 0;
  client_aton = true;
  bind = pos 0;
  aton = true;
  connect = minus 1;
}

abbrev request : Request
request = record { connect = pos 0; non_blocking = pos 0; pipe = pos 0; events = [] }

abbrev start : Tunnel
start = record { to_server = []; flow = record { pipe = []; out = [] } }

tunnel_the_request-leaves_example :
    (connects refused ≡ true
      → ((tunnel_the_request (pos 80) refused 4 request start).0.0
          ≡ Option.map (λ _. both) (tunnel_result 4 request start))
        × ((tunnel_the_request (pos 80) refused 4 request start).1
            ≡ still_open (tunnel_result 4 request start) 6))
    × (connects refused ≡ false
        → tunnel_the_request (pos 80) refused 4 request start ≡ ((some client_only, start), some 6))
tunnel_the_request-leaves_example =
    tunnel_the_request-leaves (pos 80) 6 4 refused request start refl refl
