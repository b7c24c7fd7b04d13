-- ===== src/EpollEcho/Tests.antt =====
-- Three addresses and a round of events, and the instances of the theorems there.
use tpt.Common.{◌≡◌, refl, true, false, some, List, [], ◌∷◌, pos, minus}
use tpt.EpollEcho.{
  Address, ok, again, end_of_file, got, failed, accepted, Event, Server, event_loop,
}

abbrev refused : List Address
refused = record { socket = minus 1; bind = pos 0 } ∷ record { socket = pos 3; bind = minus 1 } ∷ []

abbrev usable : Address
usable = record { socket = pos 3; bind = pos 0 }

-- A client comes, one sends, and one is at its end behind bytes of which write takes one.
abbrev three : List Event
three =
    record {
      fd = 3;
      err = false;
      hup = false;
      input = true;
      accepts = accepted 6 (pos 0) (pos 0) ∷ failed ∷ [];
      reads = [];
    }
    ∷ record {
      fd = 4;
      err = false;
      hup = false;
      input = true;
      accepts = [];
      reads = got (72 ∷ 105 ∷ []) (some 2) ∷ again ∷ [];
    }
    ∷ record {
      fd = 5;
      err = false;
      hup = false;
      input = true;
      accepts = [];
      reads = got (1 ∷ 2 ∷ []) (some 1) ∷ end_of_file ∷ [];
    }
    ∷ []

abbrev serving : Server
serving = record { watched = 4 ∷ 5 ∷ []; listening = true; out = [] }

three_served :
    event_loop 3 three serving
    ≡ ok (record { watched = 4 ∷ 6 ∷ []; listening = true; out = 72 ∷ 105 ∷ 1 ∷ [] })
unfolding event_loop
three_served = refl

-- An error on the listening socket closes it, and the server goes on without.
deaf_server :
    event_loop 3
      (record { fd = 3; err = true; hup = false; input = true; accepts = []; reads = [] } ∷ [])
      serving
    ≡ ok (record serving { listening = false })
unfolding event_loop
deaf_server = refl
