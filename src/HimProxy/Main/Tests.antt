-- ===== src/HimProxy/Main/Tests.antt =====
-- The proxy from its command line to the end of its child, and the instances of the theorems there.
use tpt.Common.{◌≡◌, refl, true, List, [], ◌∷◌, pos}
use tpt.HimProxy.{running}
use tpt.HimProxy.Children.{forked, exited}
use tpt.HimProxy.Children.{create_multiple_child, wait_for_child}
use tpt.HimProxy.Network.{tcp_bind_and_listen, set_socket_non_blocking, set_socket_ip_transparent}
use tpt.HimProxy.Main.{Opt, listen_port_opt, Settings, parse_command_line, Replies, main}

abbrev defaults : Settings
defaults = record {
  listen_ip = 48 ∷ [];
  listen_port = pos 5401;
  log_level = pos 6;
  num_child = pos 0;
}

abbrev all_well : Replies
all_well = record {
  calls = record {
    socket = pos 3;
    transparent = pos 0;
    client_aton = true;
    bind = pos 0;
    aton = true;
    listen = pos 0;
    connect = pos 0;
  };
  getfl = pos 2;
  setfl = pos 0;
  setsockopt = pos 0;
  forks = λ i. forked 100;
  waits = exited 101 9 (λ i. forked 200) ∷ [];
}

abbrev port_80 : List Opt
port_80 = listen_port_opt (pos 80) ∷ []

-- The child has failed, and nothing starts it again: there is no other, and main waits for ever.
failed_child_is_lost : main port_80 all_well defaults ≡ running
unfolding main parse_command_line tcp_bind_and_listen set_socket_non_blocking
    set_socket_ip_transparent create_multiple_child wait_for_child
failed_child_is_lost = refl
