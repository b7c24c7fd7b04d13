-- ===== src/SpliceProxy/Laws.antt =====
-- The client's data reach the server whole and in order.
use tpt.Common.{
  ℕ, ◌+◌, ◌≤◌, ◌≡◌, refl, sym, ap, ◌∙◌, Bool, true, false, ◌&&◌, Option, none, some, List, [], ◌∷◌,
  ◌++◌, length, length-append, and_left, and_right, leb→le, take, drop, take-append-drop,
  length-drop, ℤ, pos, minus, is_neg, leb, arith, Bool-cases, inl, inr,
}
use mathlib.Core.List.{append_assoc}
use tpt.SpliceProxy.{
  Send, interrupted, broken, timed_out, not_ready, send_interrupted, send_broken, accepts, Sent,
  after, after_send, send_loop, tcp_send_data_with_poll, Recv, again, failed, closed, got,
  proxy_recv_and_send,
}

-- Neither poll nor send fails but by being interrupted, and poll does not time out.
abbrev pub sound : List Send → Bool
sound [] = true
sound (broken ∷ ss) = false
sound (timed_out ∷ ss) = false
sound (send_broken ∷ ss) = false
sound (_ ∷ ss) = sound ss

-- How many bytes the answers take.
abbrev pub total_room : List Send → ℕ
total_room [] = 0
total_room (accepts room ∷ ss) = room + total_room ss
total_room (_ ∷ ss) = total_room ss

send_loop-all :
    (ss : List Send) (rest : List ℕ) (n : ℕ)
    → sound ss ≡ true
    → length rest ≤ total_room ss
    → send_loop ss rest n ≡ (some (pos (n + length rest)), rest)
unfolding send_loop after
send_loop-all ss [] n ok fits = ap (λ (k : ℕ). (some (pos k), [])) (omega arith)
send_loop-all [] (b ∷ bs) n ok fits = absurd (omega arith)
send_loop-all (interrupted ∷ ss) (b ∷ bs) n ok fits = send_loop-all ss (b ∷ bs) n ok fits
send_loop-all (broken ∷ ss) (b ∷ bs) n ok fits = absurd (ground arith)
send_loop-all (timed_out ∷ ss) (b ∷ bs) n ok fits = absurd (ground arith)
send_loop-all (not_ready ∷ ss) (b ∷ bs) n ok fits = send_loop-all ss (b ∷ bs) n ok fits
send_loop-all (send_interrupted ∷ ss) (b ∷ bs) n ok fits = send_loop-all ss (b ∷ bs) n ok fits
send_loop-all (send_broken ∷ ss) (b ∷ bs) n ok fits = absurd (ground arith)
send_loop-all (accepts room ∷ ss) (b ∷ bs) n ok fits =
    let split = take-append-drop room (b ∷ bs) in
    let now = take room (b ∷ bs) in
    let later = drop room (b ∷ bs) in
    let lengths : length now + length later ≡ length (b ∷ bs) =
      sym (length-append now later) ∙ ap length split in
    let enough : length later ≤ total_room ss = length-drop room (total_room ss) (b ∷ bs) fits in
    ap (after now) (send_loop-all ss later (n + length now) ok enough)
    ∙ ap (λ (k : ℕ). (some (pos k), now ++ later)) (omega arith)
    ∙ ap (λ (l : List ℕ). (some (pos (n + length (b ∷ bs))), l)) split

-- Each send loop gets answers that take its bytes.
abbrev pub carried : List Recv → Bool
carried [] = true
carried (got bytes sends ∷ rs) =
    sound sends && (leb (length bytes) (total_room sends) && carried rs)
carried (_ ∷ rs) = true

-- What is received until recv fails or returns 0.
abbrev pub incoming : List Recv → List ℕ
incoming [] = []
incoming (got bytes sends ∷ rs) = bytes ++ incoming rs
incoming (_ ∷ rs) = []

-- What that end makes the result: 1 for EAGAIN, -1 for another error, 0 for the end of the stream.
abbrev pub verdict : List Recv → Option ℤ
verdict [] = none
verdict (again ∷ rs) = some (pos 1)
verdict (failed ∷ rs) = some (minus 1)
verdict (closed ∷ rs) = some (pos 0)
verdict (got bytes sends ∷ rs) = verdict rs

-- tcp_send_data_with_poll sends the whole buffer in order and returns its length, in however many
-- parts send takes it and however often it is interrupted, once the answers have room for all of it
-- and nothing fails or times out.
pub tcp_send_data_with_poll-all :
    (ss : List Send) (buf : List ℕ)
    → sound ss ≡ true
    → length buf ≤ total_room ss
    → tcp_send_data_with_poll ss buf ≡ (some (pos (length buf)), buf)
unfolding tcp_send_data_with_poll
tcp_send_data_with_poll-all ss buf ok fits =
    send_loop-all ss buf 0 ok fits ∙ ap (λ (k : ℕ). (some (pos k), buf)) (omega arith)

-- The bytes of the rounds that end the run, and the result, `none` if nothing ends it.
abbrev pub outcome : List Recv → Sent
outcome rs = (verdict rs, incoming rs)

-- When every send loop can send its bytes, proxy_recv_and_send has sent on, in order, all that it has
-- received when recv fails or returns 0, and returns 1, -1 or 0 as that end has it; it waits before.
pub proxy_recv_and_send-outcome :
    (rs : List Recv) → carried rs ≡ true → proxy_recv_and_send rs ≡ outcome rs
unfolding proxy_recv_and_send after_send after
proxy_recv_and_send-outcome [] h = refl
proxy_recv_and_send-outcome (again ∷ rs) h = refl
proxy_recv_and_send-outcome (failed ∷ rs) h = refl
proxy_recv_and_send-outcome (closed ∷ rs) h = refl
proxy_recv_and_send-outcome (got bytes sends ∷ rs) h =
    let ok : sound sends ≡ true = and_left _ _ h in
    let both = and_right (sound sends) _ h in
    let fits : length bytes ≤ total_room sends = leb→le _ _ (and_left _ _ both) in
    let rest = and_right (leb (length bytes) (total_room sends)) _ both in
    ap (λ (s : Sent). after_send s (proxy_recv_and_send rs))
      (tcp_send_data_with_poll-all sends bytes ok fits)
    ∙ ap (after bytes) (proxy_recv_and_send-outcome rs rest)

-- The bytes that have gone out are the first of `coming`.
abbrev pub IsPrefix : (coming : List ℕ) → Sent → Type 0
IsPrefix coming s = (rest : List ℕ) × (s.1 ++ rest ≡ coming)

pub send_loop-IsPrefix :
    (ss : List Send) (bytes : List ℕ) (n : ℕ) → IsPrefix bytes (send_loop ss bytes n)
unfolding send_loop after
send_loop-IsPrefix ss [] n = ([], refl)
send_loop-IsPrefix [] (b ∷ bs) n = (b ∷ bs, refl)
send_loop-IsPrefix (interrupted ∷ ss) (b ∷ bs) n = send_loop-IsPrefix ss (b ∷ bs) n
send_loop-IsPrefix (broken ∷ ss) (b ∷ bs) n = (b ∷ bs, refl)
send_loop-IsPrefix (timed_out ∷ ss) (b ∷ bs) n = (b ∷ bs, refl)
send_loop-IsPrefix (not_ready ∷ ss) (b ∷ bs) n = send_loop-IsPrefix ss (b ∷ bs) n
send_loop-IsPrefix (send_interrupted ∷ ss) (b ∷ bs) n = send_loop-IsPrefix ss (b ∷ bs) n
send_loop-IsPrefix (send_broken ∷ ss) (b ∷ bs) n = (b ∷ bs, refl)
send_loop-IsPrefix (accepts room ∷ ss) (b ∷ bs) n =
    let now = take room (b ∷ bs) in
    let later = send_loop ss (drop room (b ∷ bs)) (n + length now) in
    let (rest, e) = send_loop-IsPrefix ss (drop room (b ∷ bs)) (n + length now) in
    (
      rest,
      append_assoc now later.1 rest
          ∙ ap (λ (l : List ℕ). now ++ l) e
          ∙ take-append-drop room (b ∷ bs),
    )

-- The bytes that have gone out are the first of those that come in, and all of them if the run ends well.
abbrev pub Relays : (coming : List ℕ) → Sent → Type 0
Relays coming s =
    IsPrefix coming s × ((ret : ℤ) → s.0 ≡ some ret → is_neg ret ≡ false → s.1 ≡ coming)

pub send_loop-whole :
    (ss : List Send) (bytes : List ℕ) (n : ℕ) (ret : ℤ)
    → (send_loop ss bytes n).0 ≡ some ret
    → is_neg ret ≡ false
    → (send_loop ss bytes n).1 ≡ bytes
unfolding send_loop after
send_loop-whole ss [] n ret e good = refl
send_loop-whole [] (b ∷ bs) n ret e good = absurd (ground arith)
send_loop-whole (interrupted ∷ ss) (b ∷ bs) n ret e good = send_loop-whole ss (b ∷ bs) n ret e good
send_loop-whole (broken ∷ ss) (b ∷ bs) n ret e good = absurd (ground arith)
send_loop-whole (timed_out ∷ ss) (b ∷ bs) n ret e good = absurd (ground arith)
send_loop-whole (not_ready ∷ ss) (b ∷ bs) n ret e good = send_loop-whole ss (b ∷ bs) n ret e good
send_loop-whole (send_interrupted ∷ ss) (b ∷ bs) n ret e good =
    send_loop-whole ss (b ∷ bs) n ret e good
send_loop-whole (send_broken ∷ ss) (b ∷ bs) n ret e good = absurd (ground arith)
send_loop-whole (accepts room ∷ ss) (b ∷ bs) n ret e good =
    ap (λ (l : List ℕ). take room (b ∷ bs) ++ l)
      (send_loop-whole ss (drop room (b ∷ bs)) (n + length (take room (b ∷ bs))) ret e good)
    ∙ take-append-drop room (b ∷ bs)

-- One round: the send loop, then the rest.
after_send-Relays :
    (o : Option ℤ) (out bytes more : List ℕ) (next : Sent)
    → IsPrefix bytes (o, out)
    → ((ret : ℤ) → o ≡ some ret → is_neg ret ≡ false → out ≡ bytes)
    → Relays more next
    → Relays (bytes ++ more) (after_send (o, out) next)
unfolding after_send after
after_send-Relays none out bytes more next (rest, e) whole r = (
  (rest ++ more, sym (append_assoc out rest more) ∙ ap (λ (l : List ℕ). l ++ more) e),
  λ ret h good. absurd (ground arith),
)
after_send-Relays (some ret) out bytes more next (rest, e) whole ((left, h), all) =
    elim (Bool-cases (is_neg ret)) [
      | inl bad ↦ rw bad (
        (rest ++ more, sym (append_assoc out rest more) ∙ ap (λ (l : List ℕ). l ++ more) e),
        λ k same good. absurd (still_bad k bad same good),
      )
      | inr good ↦
          let sent : out ≡ bytes = whole ret refl good in
          rw good (
            (
              left,
              append_assoc out next.1 left
                  ∙ ap (λ (l : List ℕ). out ++ l) h
                  ∙ ap (λ (l : List ℕ). l ++ more) sent,
            ),
            λ k same fine.
                ap (λ (l : List ℕ). out ++ l) (all k same fine)
                ∙ ap (λ (l : List ℕ). l ++ more) sent,
          )
    ]
  where
    still_bad : (k : ℤ) → is_neg ret ≡ true → some ret ≡ some k → is_neg k ≡ false → ⊥
    still_bad k bad same good = let here : ret ≡ k = cc in cc

-- Whatever recv, poll and send answer, and wherever proxy_recv_and_send stands or stops: what has gone to the
-- server is the beginning of what came from the client, and it is all of it if a result that is not
-- negative is returned.
pub proxy_recv_and_send-Relays : (rs : List Recv) → Relays (incoming rs) (proxy_recv_and_send rs)
unfolding proxy_recv_and_send tcp_send_data_with_poll
proxy_recv_and_send-Relays [] = (([], refl), λ ret e good. refl)
proxy_recv_and_send-Relays (again ∷ rs) = (([], refl), λ ret e good. refl)
proxy_recv_and_send-Relays (failed ∷ rs) = (([], refl), λ ret e good. refl)
proxy_recv_and_send-Relays (closed ∷ rs) = (([], refl), λ ret e good. refl)
proxy_recv_and_send-Relays (got bytes sends ∷ rs) =
    let s : Sent = send_loop sends bytes 0 in
    after_send-Relays s.0 s.1 bytes (incoming rs) (proxy_recv_and_send rs)
      (send_loop-IsPrefix sends bytes 0) (send_loop-whole sends bytes 0)
      (proxy_recv_and_send-Relays rs)
