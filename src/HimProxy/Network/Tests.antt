-- ===== src/HimProxy/Network/Tests.antt =====
-- network.c where no socket is to be had and where all goes well, and the instances of its theorems.
use tpt.Common.{true, pos}
use tpt.HimProxy.Network.{Calls}

abbrev all_well : Calls
all_well = record {
  socket = pos 3;
  transparent = pos 0;
  client_aton = true;
  bind = pos 0;
  aton = true;
  listen = pos 0;
  connect = pos 0;
}
