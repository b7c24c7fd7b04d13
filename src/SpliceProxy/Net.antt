-- ===== src/SpliceProxy/Net.antt =====
-- The other wrappers of sproxy_net.c. What the system calls answer is an argument; an address is known by whether
-- inet_aton reads it.
mod Laws
mod Tests
use tpt.Common.{
  ℕ, ◌+◌, Bool, true, false, not, ◌||◌, Option, none, some, List, [], ◌∷◌, ◌++◌, length, take, drop,
  ℤ, pos, negsuc, minus, is_neg, ltb, if◌then◌else◌,
}
use tpt.SpliceProxy.{after, Sent}

-- The result, the socket that the call leaves open, and what has been written to the caller's variable.
pub record Socket : Type 0 where
  pub ret : ℤ
  pub left_open : Option ℕ
  pub passed : Option ℤ

abbrev pub bad_port : ℤ → Bool
bad_port (pos n) = ltb 65535 n
bad_port (negsuc n) = true

-- The results of socket, of inet_aton, of connect, and of bind and listen.
pub record Calls : Type 0 where
  pub socket : ℤ
  pub aton : Bool
  pub connect : ℤ
  pub bind : ℤ
  pub listen : ℤ

-- The descriptor, when socket() has returned one.
abbrev pub opened : ℤ → Option ℕ
opened (pos n) = some n
opened (negsuc n) = none

-- `given` says that no pointer is NULL. `*local_socket` is written at the end.
pub tcp_connect_to_server : (given : Bool) → (port : ℤ) → Calls → Socket
tcp_connect_to_server given port c =
    if not given || bad_port port
    then record { ret = minus 1; left_open = none; passed = none }
    else if is_neg c.socket
    then record { ret = minus 1; left_open = none; passed = none }
    else if not c.aton
    then record { ret = minus 1; left_open = opened c.socket; passed = none }
    else if is_neg c.connect
    then record { ret = minus 1; left_open = opened c.socket; passed = none }
    else record { ret = pos 0; left_open = opened c.socket; passed = some c.socket }

-- The test behind socket() is on the pointer, which is never below NULL.
unfoldable pub tcp_bind_and_listen : (given : Bool) → (port : ℤ) → Calls → Socket
tcp_bind_and_listen given port c =
    if not given || bad_port port
    then record { ret = minus 1; left_open = none; passed = none }
    else if not c.aton
    then record { ret = minus 1; left_open = opened c.socket; passed = some c.socket }
    else if is_neg c.bind
    then record { ret = minus 1; left_open = opened c.socket; passed = some c.socket }
    else if is_neg c.listen
    then record { ret = minus 1; left_open = opened c.socket; passed = some c.socket }
    else record { ret = pos 0; left_open = opened c.socket; passed = some c.socket }

-- send fails with EINTR, or with another errno, or takes up to `room` of the bytes.
pub data Send : Type 0 where
  interrupted : Send
  broken : Send
  accepts : (room : ℕ) → Send

data_loop : List Send → (rest : List ℕ) → (bytes_sent : ℕ) → Sent
unfolding after
data_loop ss [] n = (some (pos n), [])
data_loop [] (b ∷ bs) n = (none, [])
data_loop (interrupted ∷ ss) (b ∷ bs) n = data_loop ss (b ∷ bs) n
data_loop (broken ∷ ss) (b ∷ bs) n = (some (minus 1), [])
data_loop (accepts room ∷ ss) (b ∷ bs) n =
    let now = take room (b ∷ bs) in after now (data_loop ss (drop room (b ∷ bs)) (n + length now))

-- `given` says that buf is not NULL and the socket not negative.
pub tcp_send_data : (given : Bool) → List Send → (buf : List ℕ) → Sent
unfolding data_loop
tcp_send_data false ss buf = (some (minus 1), [])
tcp_send_data true ss buf = data_loop ss buf 0

-- A round of the receive loop: poll fails with EINTR, or with another errno, or times out, or reports no input; or
-- recv fails with EINTR, or with another errno, or returns 0, or stores bytes.
pub data Receive : Type 0 where
  poll_interrupted : Receive
  poll_broken : Receive
  timed_out : Receive
  not_ready : Receive
  recv_interrupted : Receive
  recv_broken : Receive
  closed : Receive
  got : (bytes : List ℕ) → Receive

-- The result with the bytes in the buffer.
pub receive_loop : List Receive → Sent
receive_loop [] = (none, [])
receive_loop (poll_interrupted ∷ rs) = receive_loop rs
receive_loop (poll_broken ∷ rs) = (some (minus 1), [])
receive_loop (timed_out ∷ rs) = (some (minus 1), [])
receive_loop (not_ready ∷ rs) = receive_loop rs
receive_loop (recv_interrupted ∷ rs) = receive_loop rs
receive_loop (recv_broken ∷ rs) = (some (minus 1), [])
receive_loop (closed ∷ rs) = (some (pos 0), [])
receive_loop (got bytes ∷ rs) = (some (pos (length bytes)), bytes)

-- `given` says that buf is not NULL and buf_len positive.
pub tcp_receive_data_with_poll : (given : Bool) → List Receive → Sent
unfolding receive_loop
tcp_receive_data_with_poll false rs = (some (minus 1), [])
tcp_receive_data_with_poll true rs = receive_loop rs
