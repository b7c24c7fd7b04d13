-- ===== src/SpliceProxy/Received.antt =====
-- What proxy_recv_and_send has read from the client, and what of it a failed send loop has left unsent.
use tpt.Common.{
  ℕ, ◌≡◌, refl, sym, ap, ◌∙◌, Bool, true, false, not, Option, none, some, List, [], ◌∷◌, ◌++◌,
  length, drop, ℤ, is_neg, arith, Bool-cases, inl, inr, if◌then◌else◌,
}
use mathlib.Core.List.{append_assoc, append-nil}
use tpt.SpliceProxy.{
  Sent, after, after_send, send_loop, tcp_send_data_with_poll, Recv, again, failed, closed, got,
  proxy_recv_and_send,
}
use tpt.SpliceProxy.Laws.{send_loop-IsPrefix, send_loop-whole, IsPrefix}

-- The send loop has returned, and no error.
abbrev pub sent_all : Option ℤ → Bool
sent_all none = false
sent_all (some ret) = not (is_neg ret)

-- What recv has stored, up to the bytes whose send loop fails or still waits.
abbrev pub recv_in : List Recv → List ℕ
recv_in (got bytes sends ∷ rs) =
    let rest = recv_in rs in
    bytes ++ (if sent_all (tcp_send_data_with_poll sends bytes).0 then rest else [])
recv_in _ = []

-- What that send loop has not sent.
abbrev pub unsent : List Recv → List ℕ
unsent (got bytes sends ∷ rs) =
    let s : Sent = tcp_send_data_with_poll sends bytes in
    let rest = unsent rs in if sent_all s.0 then rest else drop (length s.1) bytes
unsent _ = []

drop-append : (xs ys : List ℕ) → drop (length xs) (xs ++ ys) ≡ ys
drop-append [] ys = refl
drop-append (x ∷ xs) ys = drop-append xs ys

IsPrefix-drop :
    (bytes : List ℕ) (s : Sent) → IsPrefix bytes s → s.1 ++ drop (length s.1) bytes ≡ bytes
IsPrefix-drop bytes s (rest, e) =
    ap (λ (l : List ℕ). s.1 ++ drop (length s.1) l) (sym e)
    ∙ ap (λ (l : List ℕ). s.1 ++ l) (drop-append s.1 rest)
    ∙ e

-- One round: the send loop, then the rest.
after_send-recv_in :
    (o : Option ℤ) (out bytes : List ℕ) (rs : List Recv) (next : Sent)
    → IsPrefix bytes (o, out)
    → (sent_all o ≡ true → out ≡ bytes)
    → next.1 ++ unsent rs ≡ recv_in rs
    → (after_send (o, out) next).1 ++ (if sent_all o then unsent rs else drop (length out) bytes)
      ≡ bytes ++ (if sent_all o then recv_in rs else [])
unfolding after_send after
after_send-recv_in none out bytes rs next p whole h =
    IsPrefix-drop bytes (none, out) p ∙ sym (append-nil bytes)
after_send-recv_in (some ret) out bytes rs next p whole h = elim (Bool-cases (is_neg ret)) [
  | inl bad ↦ rw bad (IsPrefix-drop bytes (some ret, out) p ∙ sym (append-nil bytes))
  | inr good ↦
      let all : out ≡ bytes = whole (rw good refl) in
      rw good (
        append_assoc out next.1 (unsent rs)
        ∙ ap (λ (l : List ℕ). out ++ l) h
        ∙ ap (λ (l : List ℕ). l ++ recv_in rs) all)
]

send_loop-sent_all :
    (o : Option ℤ) (out bytes : List ℕ)
    → ((ret : ℤ) → o ≡ some ret → is_neg ret ≡ false → out ≡ bytes)
    → sent_all o ≡ true
    → out ≡ bytes
send_loop-sent_all none out bytes whole h = absurd (ground arith)
send_loop-sent_all (some ret) out bytes whole h = whole ret refl (ground arith)

-- What has gone to the server, followed by what a failed send loop has left, is what has come from the client.
pub proxy_recv_and_send-recv_in :
    (rs : List Recv) → (proxy_recv_and_send rs).1 ++ unsent rs ≡ recv_in rs
unfolding proxy_recv_and_send tcp_send_data_with_poll
proxy_recv_and_send-recv_in [] = refl
proxy_recv_and_send-recv_in (again ∷ rs) = refl
proxy_recv_and_send-recv_in (failed ∷ rs) = refl
proxy_recv_and_send-recv_in (closed ∷ rs) = refl
proxy_recv_and_send-recv_in (got bytes sends ∷ rs) =
    let s : Sent = send_loop sends bytes 0 in
    after_send-recv_in s.0 s.1 bytes rs (proxy_recv_and_send rs) (send_loop-IsPrefix sends bytes 0)
      (send_loop-sent_all s.0 s.1 bytes (send_loop-whole sends bytes 0))
      (proxy_recv_and_send-recv_in rs)

after_send-unsent :
    (o : Option ℤ) (out bytes : List ℕ) (rs : List Recv) (next : Sent)
    → (sent_all next.0 ≡ true → unsent rs ≡ [])
    → sent_all (after_send (o, out) next).0 ≡ true
    → (if sent_all o then unsent rs else drop (length out) bytes) ≡ []
unfolding after_send after
after_send-unsent none out bytes rs next h = λ e. absurd (ground arith)
after_send-unsent (some ret) out bytes rs next h = elim (Bool-cases (is_neg ret)) [
  | inl bad ↦ rw bad (λ e. absurd (still_bad bad e))
  | inr good ↦ rw good h
]
  where
    still_bad : is_neg ret ≡ true → not (is_neg ret) ≡ true → ⊥
    still_bad bad e = ground arith

-- Nothing is left when it returns without an error.
pub proxy_recv_and_send-unsent :
    (rs : List Recv) → sent_all (proxy_recv_and_send rs).0 ≡ true → unsent rs ≡ []
unfolding proxy_recv_and_send
proxy_recv_and_send-unsent [] e = refl
proxy_recv_and_send-unsent (again ∷ rs) e = refl
proxy_recv_and_send-unsent (failed ∷ rs) e = refl
proxy_recv_and_send-unsent (closed ∷ rs) e = refl
proxy_recv_and_send-unsent (got bytes sends ∷ rs) e =
    let s : Sent = tcp_send_data_with_poll sends bytes in
    after_send-unsent s.0 s.1 bytes rs (proxy_recv_and_send rs) (proxy_recv_and_send-unsent rs) e
