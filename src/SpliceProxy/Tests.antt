-- ===== src/SpliceProxy/Tests.antt =====
-- Four bytes that go out in two parts, and the instances of the theorems on the relay.
use tpt.Common.{◌≡◌, refl, some, List, [], ◌∷◌, pos}
use tpt.SpliceProxy.{Send, interrupted, accepts, Recv, closed, got, proxy_recv_and_send}

abbrev two_parts : List Send
two_parts = accepts 3 ∷ interrupted ∷ accepts 5 ∷ []

abbrev one_message : List Recv
one_message = got (1 ∷ 2 ∷ 3 ∷ 4 ∷ []) two_parts ∷ closed ∷ []

relays_one : proxy_recv_and_send one_message ≡ (some (pos 0), 1 ∷ 2 ∷ 3 ∷ 4 ∷ [])
unfolding proxy_recv_and_send
relays_one = refl
