-- ===== src/ProxyOld/Net/Tests.antt =====
-- A transparent connection that is refused.
use tpt.Common.{◌≡◌, refl, true, none, some, pos, minus}
use tpt.ProxyOld.Net.{
  Calls, tcp_transparent_connect_to_server, tcp_connect_to_server, add_to_poller,
  set_socket_non_blocking,
}

abbrev refused : Calls
refused = record {
  socket = pos 7;
  transparent = pos 0;
  client_aton = true;
  aton = true;
  bind = pos 0;
  listen = pos 0;
  connect = minus 1;
}

nobody_has_it :
    tcp_transparent_connect_to_server true (pos 80) refused
    ≡ record { ret = minus 1; fd = some 7; passed = none }
unfolding tcp_transparent_connect_to_server
nobody_has_it = refl

caller_has_it :
    tcp_connect_to_server true (pos 80) refused
    ≡ record { ret = minus 1; fd = some 7; passed = some (pos 7) }
unfolding tcp_connect_to_server
caller_has_it = refl

no_such_flag : add_to_poller (pos 0) 3 ≡ (minus 1, none)
unfolding add_to_poller
no_such_flag = refl

not_set : set_socket_non_blocking true (pos 2) (minus 1) ≡ minus 1
unfolding set_socket_non_blocking
not_set = refl
