-- ===== src/ProxyOld/Poller/Tests.antt =====
-- A client that hangs up while it waits in the work queue, and the instances of the theorems there.
use tpt.Common.{◌≡◌, refl, true, false, List, [], ◌∷◌, pos, minus}
use tpt.ProxyOld.Poller.{Clients, Event, handle_epoll_events}
use tpt.ProxyOld.Poller.Laws.{holds, handle_epoll_events-holds}

abbrev two : Clients
two = record { live = 7 ∷ 8 ∷ []; workq = [] }

abbrev input_then_hang_up : List Event
input_then_hang_up =
    record { sock = 7; err = false; hup = false; added = pos 0 }
    ∷ record { sock = 8; err = false; hup = false; added = minus 1 }
    ∷ record { sock = 7; err = false; hup = true; added = pos 0 }
    ∷ []

-- The struct of 7 is freed while the work queue has it; 8 got into no queue.
freed_in_queue :
    handle_epoll_events true input_then_hang_up two
    ≡ (pos 0, record { live = 8 ∷ []; workq = 7 ∷ [] })
unfolding handle_epoll_events
freed_in_queue = refl

handle_epoll_events-holds_example :
    ((handle_epoll_events true input_then_hang_up two).0 ≡ pos 0)
    × (holds 7 (handle_epoll_events true input_then_hang_up two).1.live ≡ false)
    × (holds 7 (handle_epoll_events true input_then_hang_up two).1.workq ≡ true)
handle_epoll_events-holds_example = handle_epoll_events-holds input_then_hang_up two 7
