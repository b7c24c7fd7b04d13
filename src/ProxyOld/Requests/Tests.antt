-- ===== src/ProxyOld/Requests/Tests.antt =====
-- Two requests and the start of a third, for a parser of two-byte requests, and the instance of the theorem there.
use tpt.Common.{
  ℕ, zero, suc, ◌≡◌, refl, true, none, some, List, [], ◌∷◌, replicate, ◌⊎◌, inl, arith,
}
use tpt.HimProxy.{done, running}
use tpt.ProxyOld.{ProxyInfo}
use tpt.ProxyOld.Buffer.{
  Round, round, again, got, stored, one_round, receive, wanted_size, alloc_client_buf, recv_loop,
  recv_client_data,
}
use tpt.ProxyOld.Buffer.Filled.{Filled}
use tpt.ProxyOld.Buffer.Laws.{obeys}
use tpt.ProxyOld.Requests.{
  Parsed, malformed, request, incomplete, parse_request_buffer, kept, receive_parse_request,
}
use tpt.ProxyOld.Requests.Laws.{IsParser}
use tpt.ProxyOld.Requests.Job.{Serves, Hangs, receive_parse_request-Serves}

-- A request is two bytes, of which the first is not 0.
abbrev pairs : List ℕ → Parsed
pairs (zero ∷ y ∷ ys) = malformed
pairs (suc x ∷ y ∷ ys) = request 2
pairs _ = incomplete

pairs-IsParser : IsParser pairs
pairs-IsParser [] n e = absurd (ground arith)
pairs-IsParser (x ∷ []) n e = absurd (ground arith)
pairs-IsParser (zero ∷ y ∷ ys) n e = absurd (ground arith)
pairs-IsParser (suc x ∷ y ∷ ys) n e = let two : 2 ≡ n = ground arith in (omega arith, omega arith)

abbrev fresh : ProxyInfo
fresh = record {
  client_buf = none;
  client_buf_size = 0;
  client_buf_curr_len = 0;
  client_buf_parsed_len = 0;
  curr_req = [];
}

abbrev five : List Round
five = round 16 (got (1 ∷ 2 ∷ 3 ∷ [])) ∷ round 32 (got (4 ∷ 5 ∷ [])) ∷ round 48 again ∷ []

abbrev bad : List Round
bad = round 16 (got (1 ∷ 2 ∷ 0 ∷ 4 ∷ 5 ∷ 6 ∷ [])) ∷ round 16 again ∷ []

abbrev served : ProxyInfo
served = record {
  client_buf = some (record { address = 48; content = 1 ∷ 2 ∷ 3 ∷ 4 ∷ 5 ∷ []; room = 8192 });
  client_buf_size = 8192;
  client_buf_curr_len = 5;
  client_buf_parsed_len = 4;
  curr_req =
      record { req_buf = (48, 0); req_buf_len = 2 }
      ∷ record { req_buf = (48, 2); req_buf_len = 2 }
      ∷ [];
}

-- The entries of two requests point into the block that realloc returned last.
five_listed :
    receive_parse_request pairs five 9 (true ∷ true ∷ []) (some fresh) ≡ done (kept served)
unfolding receive_parse_request parse_request_buffer recv_client_data recv_loop one_round receive
    wanted_size alloc_client_buf stored
five_listed = refl

-- In the next job realloc moves the block, and the entries still point to where it was.
served_dangles :
    receive_parse_request pairs (round 64 again ∷ []) 9 [] (some served)
    ≡ done (
        kept (record served {
          client_buf =
              some (record { address = 64; content = 1 ∷ 2 ∷ 3 ∷ 4 ∷ 5 ∷ []; room = 8192 });
        }))
unfolding receive_parse_request parse_request_buffer recv_client_data recv_loop one_round receive
    wanted_size alloc_client_buf stored
served_dangles = refl

bad_hangs : receive_parse_request pairs bad 9 (true ∷ true ∷ []) (some fresh) ≡ running
unfolding receive_parse_request parse_request_buffer recv_client_data recv_loop one_round receive
    wanted_size alloc_client_buf stored
bad_hangs = refl

fresh-Filled : Filled fresh []
fresh-Filled = record {
  contents = refl;
  filled = refl;
  block = refl;
  within = omega arith;
  wide = inl refl;
}

five-obeys : obeys five fresh ≡ true
unfolding obeys one_round receive wanted_size alloc_client_buf stored
five-obeys = refl

receive_parse_request-Serves_example :
    Serves pairs
      (1 ∷ 2 ∷ 3 ∷ 4 ∷ 5 ∷ [])
      fresh
      (receive_parse_request pairs five 9 (replicate 5 true) (some fresh))
    ⊎ Hangs pairs
        (1 ∷ 2 ∷ 3 ∷ 4 ∷ 5 ∷ [])
        (receive_parse_request pairs five 9 (replicate 5 true) (some fresh))
receive_parse_request-Serves_example =
    receive_parse_request-Serves pairs five fresh [] 9 (replicate 5 true) pairs-IsParser
      fresh-Filled five-obeys (omega arith) refl (omega arith) (omega arith)
