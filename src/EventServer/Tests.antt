-- ===== src/EventServer/Tests.antt =====
-- A connection that gets bytes in two parts, and the instances of the theorems there.
use tpt.Common.{◌≡◌, refl, true, false, some, List, [], ◌∷◌, pos}
use tpt.EventServer.{
  cli_send_cb, Recv, again, got, cli_recv_cb, Accept, srvr_accept_cb, Life, accepted, received,
  sent,
}
use tpt.EventServer.Laws.{live, IsKnown, cli_recv_cb-outcome, Life-IsKnown}

abbrev fine : Accept
fine = record {
  sock = pos 9;
  fcntl = pos 0;
  memory = true;
  ev_read = true;
  ev_write = true;
  event_add = pos 0;
}

abbrev two_parts : List Recv
two_parts = got (pos 0) ∷ got (pos 0) ∷ again ∷ []

fine-live : srvr_accept_cb fine ≡ live false
unfolding srvr_accept_cb
fine-live = refl

fine-Life : Life (live false)
unfolding srvr_accept_cb
fine-Life = accepted fine

two_parts-received : cli_recv_cb two_parts (live false) ≡ some (live true)
unfolding cli_recv_cb
two_parts-received = refl

asked-Life : Life (live true)
asked-Life = received (live false) (live true) two_parts fine-Life refl two_parts-received

cli_recv_cb-outcome_example : cli_recv_cb two_parts (live false) ≡ some (live true)
cli_recv_cb-outcome_example = cli_recv_cb-outcome two_parts false

Life-IsKnown_example : IsKnown (cli_send_cb (live true))
Life-IsKnown_example = Life-IsKnown (cli_send_cb (live true)) (sent (live true) asked-Life refl)
