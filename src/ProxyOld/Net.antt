-- ===== src/ProxyOld/Net.antt =====
-- proxy_net.c and add_to_poller of proxy_poller.c. What the calls answer is an argument; an address is known by
-- whether inet_aton reads it. Every function returns 0 or -1.
pub mod Laws
mod Tests
use tpt.Common.{
  ℕ, Bool, true, false, not, ◌||◌, Option, none, some, List, [], ◌∷◌, ℤ, pos, negsuc, minus, is_neg,
  ltb, if◌then◌else◌,
}
use tpt.HimProxy.Poller.{Interest, interest_of}

-- The result, the socket that is open behind the call, and what has been written to the caller's variable.
pub record Socket : Type 0 where
  pub ret : ℤ
  pub fd : Option ℕ
  pub passed : Option ℤ

unfoldable pub bad_port : ℤ → Bool
bad_port (pos n) = ltb 65535 n
bad_port (negsuc n) = true

-- The descriptor, when socket() has returned one.
pub opened : ℤ → Option ℕ
opened (pos n) = some n
opened (negsuc n) = none

-- The results of socket, of the setsockopt for IP_TRANSPARENT, of inet_aton for the client's and for the other address,
-- of bind, listen and connect.
pub record Calls : Type 0 where
  pub socket : ℤ
  pub transparent : ℤ
  pub client_aton : Bool
  pub aton : Bool
  pub bind : ℤ
  pub listen : ℤ
  pub connect : ℤ

-- `given` says that no pointer is NULL. The test behind socket() is on the pointer, which is never below NULL.
unfoldable pub tcp_bind_and_listen : (given : Bool) → (port : ℤ) → Calls → Socket
unfolding bad_port opened
tcp_bind_and_listen given port c =
    let failed : Socket = record { ret = minus 1; fd = opened c.socket; passed = some c.socket } in
    if not given || bad_port port
    then record { ret = minus 1; fd = none; passed = none }
    else if not c.aton
    then failed
    else if is_neg c.bind
    then failed
    else if is_neg c.listen
    then failed
    else record { ret = pos 0; fd = opened c.socket; passed = some c.socket }

-- `*local_sock` is written as soon as socket() has returned.
unfoldable pub tcp_connect_to_server : (given : Bool) → (port : ℤ) → Calls → Socket
unfolding bad_port opened
tcp_connect_to_server given port c =
    let failed : Socket = record { ret = minus 1; fd = opened c.socket; passed = some c.socket } in
    if not given || bad_port port
    then record { ret = minus 1; fd = none; passed = none }
    else if is_neg c.socket
    then failed
    else if not c.aton
    then failed
    else if is_neg c.connect
    then failed
    else record { ret = pos 0; fd = opened c.socket; passed = some c.socket }

-- `*local_socket` is written at the end. The test for NULL is on the function `socket`, so `given` speaks of the
-- server's address alone; the other pointers are given.
unfoldable pub tcp_transparent_connect_to_server : (given : Bool) → (port : ℤ) → Calls → Socket
unfolding bad_port opened
tcp_transparent_connect_to_server given port c =
    let failed : Socket = record { ret = minus 1; fd = opened c.socket; passed = none } in
    if not given || bad_port port
    then record { ret = minus 1; fd = none; passed = none }
    else if is_neg c.socket
    then record { ret = minus 1; fd = none; passed = none }
    else if is_neg c.transparent
    then failed
    else if not c.client_aton
    then failed
    else if is_neg c.bind
    then failed
    else if not c.aton
    then failed
    else if is_neg c.connect
    then failed
    else record { ret = pos 0; fd = opened c.socket; passed = some c.socket }

-- `given` says that the pointer is not NULL; the results of the two fcntl.
pub set_socket_non_blocking : (given : Bool) → (getfl setfl : ℤ) → ℤ
set_socket_non_blocking given getfl setfl =
    if not given
    then minus 1
    else if is_neg getfl
    then minus 1
    else if is_neg setfl
    then minus 1
    else pos 0

-- The result, and what epoll_ctl is called with, if it is called; the flags are those of himproxy.
pub add_to_poller : (epoll_ctl : ℤ) → (event_flag : ℕ) → ℤ × Option Interest
unfolding interest_of
add_to_poller ctl flag = elim (interest_of flag) [
  | none ↦ (minus 1, none)
  | some bits ↦ (ctl, some bits)
]
