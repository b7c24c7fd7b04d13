-- ===== src/SpliceProxy.antt =====
-- src/networking/splice/sp_exp: a proxy that relays between a client and a server. Modelled is the way of the
-- client's data: proxy_recv_and_send of sproxy_core.c with tcp_send_data_with_poll of sproxy_net.c. What recv, poll and send
-- answer is an argument. Splice is the way back, and Tunnel the connection with both ways.
pub mod Splice
pub mod Tunnel
mod Main
mod Net
mod Transparent
pub mod Laws
pub mod Received
mod Tests
use tpt.Common.{
  ℕ, ◌+◌, Bool, true, false, Option, none, some, List, [], ◌∷◌, ◌++◌, length, take, drop, ℤ, pos,
  minus, is_neg, int_eq, if◌then◌else◌,
}

-- A round of the send loop: poll fails with EINTR, or with another errno, or times out, or reports the
-- socket without POLLOUT; or send fails with EINTR, or with another errno, or takes what it can of the
-- bytes, up to `room`, and returns their number.
pub data Send : Type 0 where
  interrupted : Send
  broken : Send
  timed_out : Send
  not_ready : Send
  send_interrupted : Send
  send_broken : Send
  accepts : (room : ℕ) → Send

-- The result, `none` while a run still waits, with the bytes that have gone out so far.
abbrev pub Sent : Type 0
Sent = Option ℤ × List ℕ

pub after : List ℕ → Sent → Sent
after out (ret, more) = (ret, out ++ more)

-- The loop with the bytes still to send and the count of those sent.
pub send_loop : List Send → (rest : List ℕ) → (bytes_sent : ℕ) → Sent
unfolding after
send_loop ss [] n = (some (pos n), [])
send_loop [] (b ∷ bs) n = (none, [])
send_loop (interrupted ∷ ss) (b ∷ bs) n = send_loop ss (b ∷ bs) n
send_loop (broken ∷ ss) (b ∷ bs) n = (some (minus 1), [])
send_loop (timed_out ∷ ss) (b ∷ bs) n = (some (minus 1), [])
send_loop (not_ready ∷ ss) (b ∷ bs) n = send_loop ss (b ∷ bs) n
send_loop (send_interrupted ∷ ss) (b ∷ bs) n = send_loop ss (b ∷ bs) n
send_loop (send_broken ∷ ss) (b ∷ bs) n = (some (minus 1), [])
send_loop (accepts room ∷ ss) (b ∷ bs) n =
    let now = take room (b ∷ bs) in after now (send_loop ss (drop room (b ∷ bs)) (n + length now))

pub tcp_send_data_with_poll : List Send → (buf : List ℕ) → Sent
unfolding send_loop
tcp_send_data_with_poll ss buf = send_loop ss buf 0

-- recv fails with EAGAIN, or with another errno, EINTR included; it returns 0; or it stores bytes, for
-- which the send loop gets the answers `sends`.
pub data Recv : Type 0 where
  again : Recv
  failed : Recv
  closed : Recv
  got : (bytes : List ℕ) → (sends : List Send) → Recv

-- What follows a send loop: its error, or what the `next` rounds come to.
pub after_send : Sent → (next : Sent) → Sent
unfolding after
after_send (none, out) next = (none, out)
after_send (some ret, out) next = if is_neg ret then (some ret, out) else after out next

-- The result with all bytes that have gone out.
pub proxy_recv_and_send : List Recv → Sent
unfolding tcp_send_data_with_poll after_send
proxy_recv_and_send [] = (none, [])
proxy_recv_and_send (again ∷ rs) = (some (pos 1), [])
proxy_recv_and_send (failed ∷ rs) = (some (minus 1), [])
proxy_recv_and_send (closed ∷ rs) = (some (pos 0), [])
proxy_recv_and_send (got bytes sends ∷ rs) =
    after_send (tcp_send_data_with_poll sends bytes) (proxy_recv_and_send rs)

-- What a loop makes of the result of a call in it: -1 or 0 at its end, or `next`, its further rounds.
pub after_poll : {S : Type 0} → Option ℤ → (f : S) → (next : Option ℤ × S) → Option ℤ × S
after_poll none f next = (none, f)
after_poll (some ret) f next =
    if is_neg ret
    then (some (minus 1), f)
    else if int_eq ret (pos 0)
    then (some (pos 0), f)
    else next
