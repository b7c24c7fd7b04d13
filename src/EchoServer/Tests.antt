-- ===== src/EchoServer/Tests.antt =====
-- Three clients, of which the second gets no thread and the third cannot be accepted, and a message that an old one completes.
use tpt.Common.{◌≡◌, refl, true, List, [], ◌∷◌, pos, minus}
use tpt.EchoServer.{got, Round, handler, handler_loop, answer, Client, Calls, returned, main}
use tpt.EchoServer.Laws.{main-conversations}

abbrev all_fine : Calls
all_fine = record { socket = pos 3; aton = true; bind = pos 0; listen = pos 0 }

-- "abcd", "BYE".
abbrev polite : List Round
polite = (got (97 ∷ 98 ∷ 99 ∷ 100 ∷ []), pos 4) ∷ (got (66 ∷ 89 ∷ 69 ∷ []), pos 3) ∷ []

abbrev three_clients : List Client
three_clients =
    record { accept = pos 4; pktinfo = pos 0; memory = true; pthread = pos 0; rounds = polite }
    ∷ record { accept = pos 5; pktinfo = pos 0; memory = true; pthread = pos 11; rounds = polite }
    ∷ record { accept = minus 1; pktinfo = pos 0; memory = true; pthread = pos 0; rounds = [] }
    ∷ []

main-conversations_example : main all_fine three_clients ≡ record {
  threads = record { echoed = 97 ∷ 98 ∷ 99 ∷ 100 ∷ []; ended = true } ∷ [];
  state = returned;
}
main-conversations_example = main-conversations all_fine three_clients refl refl

-- "aye" and then "b": the buffer reads "bye", and the server takes leave.
stale_bye :
    handler ((got (97 ∷ 121 ∷ 101 ∷ []), pos 3) ∷ (got (98 ∷ []), pos 1) ∷ [])
    ≡ record { echoed = 97 ∷ 121 ∷ 101 ∷ []; ended = true }
unfolding handler handler_loop answer
stale_bye = refl
