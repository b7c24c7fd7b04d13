-- ===== src/SpliceProxy/Tunnel/Laws.antt =====
-- Both ways of a connection keep their bytes in order, and its sockets are closed when it ends.
use tpt.Common.{
  ℕ, ◌≡◌, ◌≢◌, refl, true, false, Option, none, some, List, [], ◌∷◌, ◌++◌, ℤ, pos, minus, is_neg,
  int_eq, int_eq_iff, arith, Bool-cases, inl, inr, if◌then◌else◌,
}
use mathlib.Core.Option
use tpt.SpliceProxy.{after_poll, Sent, proxy_recv_and_send}
use tpt.SpliceProxy.Received.{sent_all}
use tpt.SpliceProxy.Splice.{Spliced, make_splice}
use tpt.SpliceProxy.Splice.Laws.{goes_on}
use tpt.SpliceProxy.Tunnel.Kept.{reads, Keeps, tunnel_loop-Keeps, tunnel_loop-unsent}
use tpt.SpliceProxy.Tunnel.{
  Tunnel, Tunneled, Event, poll_failed, poll_timed_out, client, server, quiet, tunnel_loop,
  proxy_poll_and_tunnel, Request, client_only, both, tunnel_exit, tunnel_the_request,
}

-- On any run of a connection whose pipe can be made, whatever the other calls answer: what the server has got, followed by
-- what a send loop that has failed or still waits has not sent, is what it had and all that the run has read from
-- the client; and what the client has got, followed by what is in the pipe, is what was on that way and all that
-- the run has read from the server. Nothing is left unsent when the run returns without an error. What is in the
-- pipe when the run ends goes with it. When the pipe cannot be made, nothing is read or moved.
pub proxy_poll_and_tunnel-Keeps :
    (pipe : ℤ) (len : ℕ) (es : List Event) (t : Tunnel)
    → (pipe ≡ pos 0
        → Keeps (reads len es t.flow) t (proxy_poll_and_tunnel pipe len es t).1
          × (sent_all (proxy_poll_and_tunnel pipe len es t).0 ≡ true
              → (reads len es t.flow).unsent ≡ []))
      × (pipe ≢ pos 0 → proxy_poll_and_tunnel pipe len es t ≡ (some (minus 1), t))
unfolding proxy_poll_and_tunnel
proxy_poll_and_tunnel-Keeps pipe len es t = (
  λ e. rw e (tunnel_loop-Keeps len es t, tunnel_loop-unsent len es t),
  λ ne. elim (Bool-cases (int_eq pipe (pos 0))) [
    | inl ok ↦ absurd (ne ((int_eq_iff pipe (pos 0)).0 ok))
    | inr bad ↦ rw bad refl
  ],
)

-- The loop does not come out with a result with which one goes on.
after_poll-over :
    (ret : Option ℤ) (t : Tunnel) (next : Tunneled)
    → goes_on next.0 ≡ false
    → goes_on (after_poll ret t next).0 ≡ false
unfolding after_poll
after_poll-over none t next h = refl
after_poll-over (some ret) t next h = elim (Bool-cases (is_neg ret)) [
  | inl bad ↦ rw bad refl
  | inr good ↦ elim (Bool-cases (int_eq ret (pos 0))) [
    | inl stop ↦ rw (good, stop) refl
    | inr more ↦ rw (good, more) h
  ]
]

tunnel_loop-over :
    (len : ℕ) (es : List Event) (t : Tunnel) → goes_on (tunnel_loop len es t).0 ≡ false
unfolding tunnel_loop
tunnel_loop-over len [] t = refl
tunnel_loop-over len (poll_failed ∷ es) t = refl
tunnel_loop-over len (poll_timed_out ∷ es) t = refl
tunnel_loop-over len (client rs ∷ es) t =
    let s : Sent = proxy_recv_and_send rs in
    let t' : Tunnel = record t { to_server = t.to_server ++ s.1 } in
    after_poll-over s.0 t' (tunnel_loop len es t') (tunnel_loop-over len es t')
tunnel_loop-over len (server is ∷ es) t =
    let r : Spliced = make_splice true len is t.flow in
    let t' : Tunnel = record t { flow = r.1 } in
    after_poll-over r.0 t' (tunnel_loop len es t') (tunnel_loop-over len es t')
tunnel_loop-over len (quiet ∷ es) t = tunnel_loop-over len es t

proxy_poll_and_tunnel-over :
    (pipe : ℤ) (len : ℕ) (es : List Event) (t : Tunnel)
    → goes_on (proxy_poll_and_tunnel pipe len es t).0 ≡ false
unfolding proxy_poll_and_tunnel
proxy_poll_and_tunnel-over pipe len es t = elim (Bool-cases (int_eq pipe (pos 0))) [
  | inl ok ↦ rw ok (tunnel_loop-over len es t)
  | inr failed ↦ rw failed refl
]

tunnel_exit-both :
    (ret : Option ℤ) → goes_on ret ≡ false → tunnel_exit ret ≡ Option.map (λ _. both) ret
unfolding tunnel_exit
tunnel_exit-both none h = refl
tunnel_exit-both (some ret) h = elim (Bool-cases (is_neg ret)) [
  | inl bad ↦ rw bad refl
  | inr good ↦ elim (Bool-cases (int_eq ret (pos 0))) [
    | inl stop ↦ rw (good, stop) refl
    | inr more ↦ absurd (ground arith)
  ]
]

-- The result of the tunnel behind a connection that stands, `none` while it runs.
abbrev pub tunnel_result : (len : ℕ) → Request → Tunnel → Option ℤ
tunnel_result len r t =
    if is_neg r.non_blocking
    then some (minus 1)
    else (proxy_poll_and_tunnel r.pipe len r.events t).0

-- Once the connection to the server stands, tunnel_the_request has closed both sockets when its tunnel has returned,
-- whatever it returns, or the server's socket could not be made non-blocking; and it still runs otherwise.
-- When the connection fails, it has closed the client's, the only one that it has, and passed nothing on.
pub tunnel_the_request-closes :
    (len : ℕ) (r : Request) (t : Tunnel)
    → ((r.connect ≡ pos 0)
        → (tunnel_the_request len r t).0 ≡ Option.map (λ _. both) (tunnel_result len r t))
      × (r.connect ≢ pos 0 → tunnel_the_request len r t ≡ (some client_only, t))
unfolding tunnel_the_request
tunnel_the_request-closes len r t = (
  λ e. rw e (elim (Bool-cases (is_neg r.non_blocking)) [
    | inl bad ↦ rw bad refl
    | inr good ↦ rw good (
        tunnel_exit-both (proxy_poll_and_tunnel r.pipe len r.events t).0
          (proxy_poll_and_tunnel-over r.pipe len r.events t))
  ]),
  λ ne. elim (Bool-cases (int_eq r.connect (pos 0))) [
    | inl ok ↦ absurd (ne ((int_eq_iff r.connect (pos 0)).0 ok))
    | inr bad ↦ rw bad refl
  ],
)
