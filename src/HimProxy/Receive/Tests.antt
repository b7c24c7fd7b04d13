-- ===== src/HimProxy/Receive/Tests.antt =====
-- A client that sends two bytes, and the instance of the theorem there.
use tpt.Common.{◌≡◌, refl, true, none, some, List, [], ◌∷◌, inr, arith, pos}
use tpt.HimProxy.{done}
use tpt.HimProxy.Receive.{ClientInfo, Recv, interrupted, again, got, recv_client_data}
use tpt.HimProxy.Receive.Laws.{CollectsFor, obeys, recv_client_data-CollectsFor}

abbrev new_client : ClientInfo
new_client = record { cbuf = none; cbuf_size = 0; cbuf_len = 0 }

abbrev two_bytes : List Recv
two_bytes = got (65 ∷ 66 ∷ []) true ∷ interrupted ∷ again ∷ []

collects_two :
    recv_client_data true two_bytes (some new_client)
    ≡ done
        (pos 0, some (record { cbuf = some (65 ∷ 66 ∷ [], 8192); cbuf_size = 8192; cbuf_len = 2 }))
unfolding recv_client_data
collects_two = refl

recv_client_data-CollectsFor_example :
    CollectsFor (some (pos 0)) (65 ∷ 66 ∷ []) (recv_client_data true two_bytes (some new_client))
unfolding obeys
recv_client_data-CollectsFor_example =
    recv_client_data-CollectsFor two_bytes new_client [] (inr (refl, refl, refl)) refl refl
      (omega arith)
