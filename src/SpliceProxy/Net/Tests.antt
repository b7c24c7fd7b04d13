-- ===== src/SpliceProxy/Net/Tests.antt =====
-- A connect that is refused, and a receive behind an interrupted poll.
use tpt.Common.{◌≡◌, refl, true, none, some, [], ◌∷◌, pos, minus}
use tpt.SpliceProxy.Net.{
  Calls, tcp_connect_to_server, poll_interrupted, got, tcp_receive_data_with_poll,
}

abbrev refusing : Calls
refusing = record { socket = pos 5; aton = true; connect = minus 1; bind = pos 0; listen = pos 0 }

-- The socket stays open, and the caller does not get it.
refused :
    tcp_connect_to_server true (pos 80) refusing
    ≡ record { ret = minus 1; left_open = some 5; passed = none }
unfolding tcp_connect_to_server
refused = refl

two_bytes :
    tcp_receive_data_with_poll true (poll_interrupted ∷ got (1 ∷ 2 ∷ []) ∷ [])
    ≡ (some (pos 2), 1 ∷ 2 ∷ [])
unfolding tcp_receive_data_with_poll
two_bytes = refl
