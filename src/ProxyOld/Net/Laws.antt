-- ===== src/ProxyOld/Net/Laws.antt =====
-- Which sockets the wrappers leave open, and who has them.
use tpt.Common.{
  ℕ, ◌≡◌, Bool, true, false, not, ◌&&◌, none, some, ℤ, pos, minus, is_neg, arith, if◌then◌else◌,
}
use tpt.ProxyOld.Net.{
  bad_port, Calls, tcp_bind_and_listen, tcp_connect_to_server, tcp_transparent_connect_to_server,
}

-- The socket can be put to its use.
abbrev pub binds : Calls → Bool
binds c = c.aton && (not (is_neg c.bind) && not (is_neg c.listen))

abbrev pub connects : Calls → Bool
connects c = c.aton && not (is_neg c.connect)

abbrev pub connects_as_client : Calls → Bool
connects_as_client c =
    not (is_neg c.transparent) && (c.client_aton && (not (is_neg c.bind) && connects c))

abbrev result : Bool → ℤ
result b = if b then pos 0 else minus 1

-- Once socket() has returned a descriptor for a good port, each of the three wrappers returns 0 or -1 and leaves the
-- socket open. The caller gets to know it, even on a failure, from tcp_bind_and_listen and
-- tcp_connect_to_server; from tcp_transparent_connect_to_server only if all has gone well, so that nobody can close it else.
pub sockets_left_open :
    (port : ℤ) (fd : ℕ) (c : Calls)
    → bad_port port ≡ false
    → c.socket ≡ pos fd
    → (tcp_bind_and_listen true port c
        ≡ record { ret = result (binds c); fd = some fd; passed = some (pos fd) })
      × (tcp_connect_to_server true port c
          ≡ record { ret = result (connects c); fd = some fd; passed = some (pos fd) })
      × (tcp_transparent_connect_to_server true port c ≡ record {
        ret = result (connects_as_client c);
        fd = some fd;
        passed = if connects_as_client c then some (pos fd) else none;
      })
unfolding tcp_bind_and_listen tcp_connect_to_server tcp_transparent_connect_to_server
sockets_left_open port fd c fine made = (ground arith, ground arith, ground arith)
