-- ===== src/EpollEcho/Main/Tests.antt =====
-- A server on port descriptor 3 with the rounds of an earlier event, and a listen that fails.
use tpt.Common.{ℕ, ◌≡◌, refl, true, false, some, List, [], ◌∷◌, pos, minus}
use tpt.EpollEcho.{Address, create_and_bind, make_socket_non_blocking, got, again, Event, Server}
use tpt.EpollEcho.Main.{Calls, serving, aborted_by, main}
use tpt.EpollEcho.Main.Laws.{main-prints}

abbrev refused : Address
refused = record { socket = pos 3; bind = minus 1 }

abbrev usable : Address
usable = record { socket = pos 4; bind = pos 0 }

abbrev calls : Calls
calls = record {
  getaddrinfo = pos 0;
  addresses = refused ∷ usable ∷ [];
  getfl = pos 2;
  setfl = pos 0;
  listen = pos 0;
  epoll_create = pos 5;
  epoll_ctl = pos 0;
}

abbrev sends : List ℕ → Event
sends bytes = record {
  fd = 7;
  err = false;
  hup = false;
  input = true;
  accepts = [];
  reads = got bytes (some 9) ∷ again ∷ [];
}

-- Two rounds.
abbrev rounds : List (List Event)
rounds = (sends (1 ∷ 2 ∷ []) ∷ []) ∷ (sends (3 ∷ []) ∷ sends (4 ∷ []) ∷ []) ∷ []

main-prints_example :
    (s : Server) × (main 2 calls rounds ≡ serving s)
    × (s.out ≡ 1 ∷ 2 ∷ 3 ∷ 4 ∷ [])
    × (s.listening ≡ true)
unfolding make_socket_non_blocking
main-prints_example =
    main-prints calls (refused ∷ []) [] usable 4 rounds refl refl refl refl refl refl refl

no_listen : main 2 (record calls { listen = minus 1 }) rounds ≡ aborted_by
unfolding main create_and_bind make_socket_non_blocking
no_listen = refl
