-- ===== src/SpliceProxy/Tunnel/Tests.antt =====
-- A connection with input from both sides, and the instances of the theorems there.
use tpt.Common.{◌≡◌, ◌≢◌, refl, true, some, List, [], ◌∷◌, pos, minus}
use mathlib.Core.Option
use tpt.SpliceProxy.{again, got, accepts}
use tpt.SpliceProxy.Splice.{Flow, moves, into, ended}
use tpt.SpliceProxy.Splice as Splice
use tpt.SpliceProxy.Tunnel.{
  Tunnel, Event, client, server, quiet, proxy_poll_and_tunnel, Request, client_only, both,
  tunnel_the_request,
}
use tpt.SpliceProxy.Received.{sent_all}
use tpt.SpliceProxy.Tunnel.Kept.{reads, Keeps}
use tpt.SpliceProxy.Tunnel.Laws.{
  proxy_poll_and_tunnel-Keeps, tunnel_the_request-closes, tunnel_result,
}

abbrev fresh : Tunnel
fresh = record { to_server = []; flow = record { pipe = []; out = [] } }

-- The server ends its stream behind bytes of which the client has taken two.
abbrev talk : List Event
talk =
    client (got (1 ∷ 2 ∷ []) (accepts 1 ∷ accepts 1 ∷ []) ∷ again ∷ [])
    ∷ quiet
    ∷ server (into (7 ∷ 8 ∷ 9 ∷ []) (moves 2 ∷ []) ∷ Splice.again ∷ [])
    ∷ client (got (3 ∷ []) (accepts 1 ∷ []) ∷ again ∷ [])
    ∷ server (ended ∷ [])
    ∷ []

-- It returns 0 and closes the pipe with the byte that is still in it.
talk_end : proxy_poll_and_tunnel (pos 0) 100 talk fresh ≡ (
  some (pos 0),
  record { to_server = 1 ∷ 2 ∷ 3 ∷ []; flow = record { pipe = 9 ∷ []; out = 7 ∷ 8 ∷ [] } },
)
unfolding proxy_poll_and_tunnel
talk_end = refl

proxy_poll_and_tunnel-Keeps_example :
    (pos 0 ≡ pos 0
      → Keeps
          (record { up = 1 ∷ 2 ∷ 3 ∷ []; unsent = []; down = 7 ∷ 8 ∷ 9 ∷ [] })
          fresh
          (proxy_poll_and_tunnel (pos 0) 100 talk fresh).1
        × (sent_all (proxy_poll_and_tunnel (pos 0) 100 talk fresh).0 ≡ true
            → (reads 100 talk fresh.flow).unsent ≡ []))
    × (pos 0 ≢ pos 0 → proxy_poll_and_tunnel (pos 0) 100 talk fresh ≡ (some (minus 1), fresh))
unfolding proxy_poll_and_tunnel
proxy_poll_and_tunnel-Keeps_example = proxy_poll_and_tunnel-Keeps (pos 0) 100 talk fresh

abbrev talking : Request
talking = record { connect = pos 0; non_blocking = pos 0; pipe = pos 0; events = talk }

tunnel_the_request-closes_example :
    ((pos 0 ≡ pos 0)
      → (tunnel_the_request 100 talking fresh).0
        ≡ Option.map (λ _. both) (tunnel_result 100 talking fresh))
    × (pos 0 ≢ pos 0 → tunnel_the_request 100 talking fresh ≡ (some client_only, fresh))
tunnel_the_request-closes_example = tunnel_the_request-closes 100 talking fresh

talking_ends : (tunnel_the_request 100 talking fresh).0 ≡ some both
unfolding tunnel_the_request
talking_ends = refl
