-- ===== src/SpliceProxy/Transparent/Laws.antt =====
-- Which sockets to the server a request leaves open.
use tpt.Common.{
  ℕ, ◌≡◌, refl, ap, ◌∙◌, Bool, true, false, not, ◌&&◌, Option, none, some, ℤ, pos, minus, is_neg,
  arith,
}
use mathlib.Core.Option
use tpt.SpliceProxy.Net.{bad_port, Socket}
use tpt.SpliceProxy.Tunnel.{Tunnel, Request, Closed, client_only, both}
use tpt.SpliceProxy.Tunnel.Laws.{tunnel_the_request-closes, tunnel_result}
use tpt.SpliceProxy.Transparent.{
  Calls, tcp_transparent_connect_to_server, open_behind, tunnel_the_request,
}

-- Every call up to connect succeeds.
abbrev pub connects : Calls → Bool
connects c =
    not (is_neg c.transparent)
    && (c.client_aton && (not (is_neg c.bind) && (c.aton && not (is_neg c.connect))))

-- The result, and that the socket is passed on.
abbrev reached : Bool → ℕ → Socket
reached true fd = record { ret = pos 0; left_open = some fd; passed = some (pos fd) }
reached false fd = record { ret = minus 1; left_open = some fd; passed = none }

tcp_transparent_connect_to_server-reached :
    (port : ℤ) (fd : ℕ) (c : Calls)
    → bad_port port ≡ false
    → c.socket ≡ pos fd
    → tcp_transparent_connect_to_server true port c ≡ reached (connects c) fd
unfolding tcp_transparent_connect_to_server
tcp_transparent_connect_to_server-reached port fd c fine made = rw (fine, made) (ground arith)

-- The descriptor of a run whose tunnel has this result.
abbrev pub still_open : Option ℤ → ℕ → Option ℕ
still_open none fd = some fd
still_open (some ret) fd = none

open_behind-both :
    (ret : Option ℤ) (fd : ℕ)
    → open_behind (Option.map (λ _. both) ret) (some fd) ≡ still_open ret fd
unfolding open_behind
open_behind-both none fd = refl
open_behind-both (some ret) fd = refl

-- Once socket() has returned a descriptor `fd`: when every call behind it succeeds, the descriptor is open while the tunnel
-- runs, and the run has closed both sockets when its tunnel has returned, or `fd` could not be made non-blocking;
-- when one fails, the run ends with the client's socket closed, nothing has gone through, and `fd` stays open.
pub tunnel_the_request-leaves :
    (port : ℤ) (fd len : ℕ) (c : Calls) (r : Request) (t : Tunnel)
    → bad_port port ≡ false
    → c.socket ≡ pos fd
    → (connects c ≡ true
        → ((tunnel_the_request port c len r t).0.0 ≡ Option.map (λ _. both) (tunnel_result len r t))
          × ((tunnel_the_request port c len r t).1 ≡ still_open (tunnel_result len r t) fd))
      × (connects c ≡ false → tunnel_the_request port c len r t ≡ ((some client_only, t), some fd))
unfolding tunnel_the_request open_behind
tunnel_the_request-leaves port fd len c r t fine made =
    let s = tcp_transparent_connect_to_server-reached port fd c fine made in
    let run = (tunnel_the_request-closes len (record r { connect = pos 0 }) t).0 refl in
    (
      λ h.
          rw (s, h)
            (
              run,
              ap (λ (o : Option Closed). open_behind o (some fd)) run
                  ∙ open_behind-both (tunnel_result len r t) fd,
            ),
      λ h.
          rw
            (
              s,
              h,
              (tunnel_the_request-closes len (record r { connect = minus 1 }) t).1
                  (λ e. absurd (ground arith)),
            )
            refl,
    )
