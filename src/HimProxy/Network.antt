-- ===== src/HimProxy/Network.antt =====
-- network.c: wrappers of the socket calls. What the calls answer is an argument; an address is the text that
-- inet_aton reads, so it is only known whether it reads. `none` is a NULL pointer.
mod Laws
mod Tests
use tpt.Common.{
  ℕ, Bool, true, false, ◌||◌, Option, none, some, ℤ, pos, minus, is_neg, ltb, if◌then◌else◌,
  is_some,
}

-- The results of fcntl(sock, F_GETFL) and of fcntl(sock, F_SETFL).
unfoldable pub set_socket_non_blocking : (getfl setfl : ℤ) → (sock : Option ℤ) → ℤ
set_socket_non_blocking getfl setfl none = minus 1
set_socket_non_blocking getfl setfl (some sock) =
    if is_neg getfl then minus 2 else if is_neg setfl then minus 3 else pos 0

abbrev pub bad_port : ℤ → Bool
bad_port port = is_neg port || port_above port
  where
    port_above : ℤ → Bool
    port_above (pos n) = ltb 65535 n
    port_above _ = false

-- The answers to the calls of one function, as far as it gets.
pub record Calls : Type 0 where
  pub socket : ℤ
  pub transparent : ℤ  -- setsockopt(IP_TRANSPARENT)
  pub client_aton : Bool  -- whether inet_aton reads the client's address
  pub bind : ℤ
  pub aton : Bool  -- whether inet_aton reads the address
  pub listen : ℤ
  pub connect : ℤ

-- The result, and what `*server_sock` holds afterwards. `ip` says whether bind_ip is given. The test
-- `server_sock < 0` behind socket() is on the pointer, which is never below NULL.
unfoldable pub tcp_bind_and_listen :
    Calls → (ip : Bool) → (port : ℤ) → (server_sock : Option ℤ) → ℤ × Option ℤ
tcp_bind_and_listen c ip port none = (minus 1, none)
tcp_bind_and_listen c false port (some old) = (minus 1, some old)
tcp_bind_and_listen c true port (some old) =
    if bad_port port
    then (minus 1, some old)
    else if c.aton
    then (if is_neg c.bind
        then (minus 4, some c.socket)
        else if is_neg c.listen
        then (minus 5, some c.socket)
        else (pos 0, some c.socket))
    else (minus 3, some c.socket)

pub tcp_connect_to_server :
    Calls → (ip : Bool) → (port : ℤ) → (local_sock : Option ℤ) → ℤ × Option ℤ
tcp_connect_to_server c ip port none = (minus 1, none)
tcp_connect_to_server c false port (some old) = (minus 1, some old)
tcp_connect_to_server c true port (some old) =
    if bad_port port
    then (minus 1, some old)
    else if is_neg c.socket
    then (minus 2, some c.socket)
    else if c.aton
    then (if is_neg c.connect then (minus 4, some c.socket) else (pos 0, some c.socket))
    else (minus 3, some c.socket)

-- `*local_socket` is written only at the end.
pub tcp_transparent_connect_to_server :
    Calls → (ip : Bool) → (port : ℤ) → (local_socket : Option ℤ) → ℤ × Option ℤ
tcp_transparent_connect_to_server c ip port none = (minus 1, none)
tcp_transparent_connect_to_server c false port (some old) = (minus 1, some old)
tcp_transparent_connect_to_server c true port (some old) =
    if bad_port port
    then (minus 1, some old)
    else if is_neg c.socket
    then (minus 2, some old)
    else if is_neg c.transparent
    then (minus 3, some old)
    else if c.client_aton
    then (if is_neg c.bind
        then (minus 5, some old)
        else if c.aton
        then (if is_neg c.connect then (minus 7, some old) else (pos 0, some c.socket))
        else (minus 6, some old))
    else (minus 4, some old)

unfoldable pub set_socket_ip_transparent : (setsockopt : ℤ) → (sock : Option ℤ) → ℤ
set_socket_ip_transparent setsockopt none = minus 1
set_socket_ip_transparent setsockopt (some sock) = if is_neg setsockopt then minus 2 else setsockopt
