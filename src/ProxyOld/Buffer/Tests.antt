-- ===== src/ProxyOld/Buffer/Tests.antt =====
-- A client that sends three bytes in two parts, and the instance of the theorem there.
use tpt.Common.{◌≡◌, refl, true, none, some, List, [], ◌∷◌, inl, pos, arith}
use tpt.ProxyOld.{ProxyInfo}
use tpt.ProxyOld.Buffer.{
  Round, round, interrupted, again, got, stored, one_round, receive, wanted_size, alloc_client_buf,
  recv_client_data,
}
use tpt.ProxyOld.Buffer.Filled.{Filled}
use tpt.ProxyOld.Buffer.Laws.{obeys, CollectsFor, recv_client_data-Appends}

abbrev fresh : ProxyInfo
fresh = record {
  client_buf = none;
  client_buf_size = 0;
  client_buf_curr_len = 0;
  client_buf_parsed_len = 0;
  curr_req = [];
}

abbrev three : List Round
three =
    round 16 (got (71 ∷ []))
    ∷ round 16 interrupted
    ∷ round 32 (got (69 ∷ 84 ∷ []))
    ∷ round 32 again
    ∷ []

fresh-Filled : Filled fresh []
fresh-Filled = record {
  contents = refl;
  filled = refl;
  block = refl;
  within = omega arith;
  wide = inl refl;
}

three-obeys : obeys three fresh ≡ true
unfolding obeys one_round receive wanted_size alloc_client_buf stored
three-obeys = refl

recv_client_data-Appends_example :
    CollectsFor (some (pos 1)) (71 ∷ 69 ∷ 84 ∷ []) fresh (recv_client_data three (some fresh))
recv_client_data-Appends_example =
    recv_client_data-Appends three fresh [] fresh-Filled three-obeys (omega arith)
