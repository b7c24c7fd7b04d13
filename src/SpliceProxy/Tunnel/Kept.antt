-- ===== src/SpliceProxy/Tunnel/Kept.antt =====
-- What a connection's loop reads on both ways, and that it keeps it.
use tpt.Common.{
  ℕ, ◌≡◌, refl, sym, ap, ◌∙◌, true, false, Option, none, some, List, [], ◌∷◌, ◌++◌, ℤ, pos, is_neg,
  int_eq, arith, Bool-cases, inl, inr, if◌then◌else◌,
}
use mathlib.Core.List.{append-nil, append_assoc}
use tpt.SpliceProxy.{after_poll, Sent, Recv, proxy_recv_and_send}
use tpt.SpliceProxy.Received.{
  recv_in, unsent, sent_all, proxy_recv_and_send-recv_in, proxy_recv_and_send-unsent,
}
use tpt.SpliceProxy.Splice.{Flow, Spliced, make_splice}
use tpt.SpliceProxy.Splice.Laws.{goes_on, on_the_way, read_in, make_splice-Conserves}
use tpt.SpliceProxy.Tunnel.{
  Tunnel, Tunneled, Event, poll_failed, poll_timed_out, client, server, quiet, tunnel_loop,
}

-- What the run reads from the client, what of that a failed send loop has not sent, and what it reads from the server. A
-- round that ends the loop is its last.
pub record Reads : Type 0 where
  pub up : List ℕ
  pub unsent : List ℕ
  pub down : List ℕ

abbrev no_reads : Reads
no_reads = record { up = []; unsent = []; down = [] }

abbrev pub reads : (len : ℕ) → List Event → Flow → Reads
reads len (client rs ∷ es) f =
    let rest = reads len es f in
    if goes_on (proxy_recv_and_send rs).0
    then record rest { up = recv_in rs ++ rest.up }
    else record { up = recv_in rs; unsent = unsent rs; down = [] }
reads len (server is ∷ es) f =
    let r : Spliced = make_splice true len is f in
    let rest = reads len es r.1 in
    if goes_on r.0
    then record rest { down = read_in len is f ++ rest.down }
    else record { up = []; unsent = []; down = read_in len is f }
reads len (quiet ∷ es) f = reads len es f
reads len _ f = no_reads

-- Each way has what it had and what is read, less what is not sent.
abbrev pub Keeps : Reads → Tunnel → Tunnel → Type 0
Keeps n t t' =
    (t'.to_server ++ n.unsent ≡ t.to_server ++ n.up)
    × (on_the_way t'.flow ≡ on_the_way t.flow ++ n.down)

Keeps-nothing : (t : Tunnel) → Keeps no_reads t t
Keeps-nothing t = (refl, sym (append-nil _))

-- A call in the loop, then the rest of the loop if its result lets it go on.
after_poll-either :
    (P : Reads → Tunnel → Type 0) (ret : Option ℤ) (t : Tunnel) (next : Tunneled) (m n : Reads)
    → (goes_on ret ≡ false → P n t)
    → (goes_on ret ≡ true → P m next.1)
    → P (if goes_on ret then m else n) (after_poll ret t next).1
unfolding after_poll
after_poll-either P none t next m n here later = here refl
after_poll-either P (some ret) t next m n here later = elim (Bool-cases (is_neg ret)) [
  | inl bad ↦ rw bad (here (rw bad refl))
  | inr good ↦ elim (Bool-cases (int_eq ret (pos 0))) [
    | inl stop ↦ rw (good, stop) (here (rw (good, stop) refl))
    | inr more ↦ rw (good, more) (later (rw (good, more) refl))
  ]
]

goes_on-sent_all : (ret : Option ℤ) → goes_on ret ≡ true → sent_all ret ≡ true
goes_on-sent_all none on = absurd (ground arith)
goes_on-sent_all (some ret) on = ground arith

-- All that a round has read from the client has gone to the server, if the loop goes on.
all_sent :
    (rs : List Recv)
    → goes_on (proxy_recv_and_send rs).0 ≡ true
    → (proxy_recv_and_send rs).1 ≡ recv_in rs
all_sent rs on =
    sym (append-nil (proxy_recv_and_send rs).1)
    ∙ ap (λ (l : List ℕ). (proxy_recv_and_send rs).1 ++ l)
        (sym (proxy_recv_and_send-unsent rs (goes_on-sent_all _ on)))
    ∙ proxy_recv_and_send-recv_in rs

-- The loop keeps all that it reads.
pub tunnel_loop-Keeps :
    (len : ℕ) (es : List Event) (t : Tunnel)
    → Keeps (reads len es t.flow) t (tunnel_loop len es t).1
unfolding tunnel_loop
tunnel_loop-Keeps len [] t = Keeps-nothing t
tunnel_loop-Keeps len (poll_failed ∷ es) t = Keeps-nothing t
tunnel_loop-Keeps len (poll_timed_out ∷ es) t = Keeps-nothing t
tunnel_loop-Keeps len (client rs ∷ es) t =
    let s : Sent = proxy_recv_and_send rs in
    let t' : Tunnel = record t { to_server = t.to_server ++ s.1 } in
    after_poll-either (λ n u. Keeps n t u) s.0 t' (tunnel_loop len es t') _ _
      (λ off. (
        append_assoc t.to_server s.1 (unsent rs)
            ∙ ap (λ (l : List ℕ). t.to_server ++ l) (proxy_recv_and_send-recv_in rs),
        sym (append-nil _),
      ))
      (λ on.
        let (up, down) = tunnel_loop-Keeps len es t' in
        (
          up
              ∙ append_assoc t.to_server s.1 (reads len es t.flow).up
              ∙ ap (λ (l : List ℕ). t.to_server ++ (l ++ (reads len es t.flow).up))
                  (all_sent rs on),
          down,
        ))
tunnel_loop-Keeps len (server is ∷ es) t =
    let r : Spliced = make_splice true len is t.flow in
    let t' : Tunnel = record t { flow = r.1 } in
    let kept = make_splice-Conserves len is t.flow in
    after_poll-either (λ n u. Keeps n t u) r.0 t' (tunnel_loop len es t') _ _
      (λ off. (refl, kept.0))
      (λ on.
        let (up, down) = tunnel_loop-Keeps len es t' in
        (
          up,
          down
              ∙ ap (λ (l : List ℕ). l ++ (reads len es r.1).down) kept.0
              ∙ append_assoc (on_the_way t.flow) (read_in len is t.flow) (reads len es r.1).down,
        ))
tunnel_loop-Keeps len (quiet ∷ es) t = tunnel_loop-Keeps len es t

after_poll-unsent :
    (ret : Option ℤ) (t : Tunnel) (next : Tunneled) (m n : Reads)
    → (sent_all next.0 ≡ true → m.unsent ≡ [])
    → (sent_all ret ≡ true → n.unsent ≡ [])
    → sent_all (after_poll ret t next).0 ≡ true
    → (if goes_on ret then m else n).unsent ≡ []
unfolding after_poll
after_poll-unsent none t next m n later here = λ e. absurd (ground arith)
after_poll-unsent (some ret) t next m n later here = elim (Bool-cases (is_neg ret)) [
  | inl bad ↦ rw bad (λ e. absurd (ground arith))
  | inr good ↦ elim (Bool-cases (int_eq ret (pos 0))) [
    | inl stop ↦ rw (good, stop) (λ e. here (rw good refl))
    | inr more ↦ rw (good, more) later
  ]
]

-- Nothing is left unsent if it returns without an error.
pub tunnel_loop-unsent :
    (len : ℕ) (es : List Event) (t : Tunnel)
    → sent_all (tunnel_loop len es t).0 ≡ true
    → (reads len es t.flow).unsent ≡ []
unfolding tunnel_loop
tunnel_loop-unsent len [] t e = refl
tunnel_loop-unsent len (poll_failed ∷ es) t e = refl
tunnel_loop-unsent len (poll_timed_out ∷ es) t e = refl
tunnel_loop-unsent len (client rs ∷ es) t e =
    let s : Sent = proxy_recv_and_send rs in
    let t' : Tunnel = record t { to_server = t.to_server ++ s.1 } in
    after_poll-unsent s.0 t' (tunnel_loop len es t') _ _ (tunnel_loop-unsent len es t')
      (proxy_recv_and_send-unsent rs) e
tunnel_loop-unsent len (server is ∷ es) t e =
    let r : Spliced = make_splice true len is t.flow in
    let t' : Tunnel = record t { flow = r.1 } in
    after_poll-unsent r.0 t' (tunnel_loop len es t') _ _ (tunnel_loop-unsent len es t') (λ _. refl)
      e
tunnel_loop-unsent len (quiet ∷ es) t e = tunnel_loop-unsent len es t e
