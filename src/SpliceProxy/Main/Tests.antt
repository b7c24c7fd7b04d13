-- ===== src/SpliceProxy/Main/Tests.antt =====
-- A run of main whose work queue refuses the second of three clients.
use tpt.Common.{◌≡◌, refl, true, List, [], ◌∷◌, pos, minus}
use tpt.SpliceProxy.Net.{Calls, tcp_bind_and_listen}
use tpt.SpliceProxy.Main.{Accept, failed, accepted, accept_client, main, waiting, exited}

abbrev fine : Calls
fine = record { socket = pos 3; aton = true; connect = pos 0; bind = pos 0; listen = pos 0 }

abbrev three_clients : List Accept
three_clients =
    accepted 4 (pos 0) (pos 0)
    ∷ accepted 5 (pos 0) (minus 1)
    ∷ failed
    ∷ accepted 6 (minus 1) (pos 0)
    ∷ []

three_served :
    main 7 (pos 0) (pos 80) fine three_clients
    ≡ waiting (record { tunnel_workq = 4 ∷ []; closed = 6 ∷ []; refused = 5 ∷ [] })
unfolding main tcp_bind_and_listen accept_client
three_served = refl

no_arguments : main 1 (pos 0) (pos 80) fine three_clients ≡ exited 1
unfolding main tcp_bind_and_listen accept_client
no_arguments = refl
