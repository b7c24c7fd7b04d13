-- ===== src/HimProxy/Events/Tests.antt =====
-- A failure that the next event hides, and the instances of the theorems of the event dispatch.
use tpt.Common.{true, false, List, [], ◌∷◌, pos}
use tpt.HimProxy.Events.{proxy_side, client_side, EpollEvent}

abbrev failure_then_data : List EpollEvent
failure_then_data =
    record {
      side = client_side;
      events = record { err = true; hup = false; input = false; pri = false };
      inner = pos 0;
    }
    ∷ record {
      side = proxy_side;
      events = record { err = false; hup = false; input = true; pri = false };
      inner = pos 0;
    }
    ∷ []
