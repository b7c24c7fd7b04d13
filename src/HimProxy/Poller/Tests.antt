-- ===== src/HimProxy/Poller/Tests.antt =====
-- The poller of a child where calloc fails, and a registration for reading.
use tpt.Common.{◌≡◌, refl, true, false, some, pos}
use tpt.HimProxy.Poller.{init_poller, add_to_poller}

closes_on_failure : (init_poller true true (pos 4) false).closed ≡ true
unfolding init_poller
closes_on_failure = refl

reads_edge_triggered :
    add_to_poller (pos 0) 0
    ≡ (pos 0, some (record { input = true; pri = true; output = false; edge = true }))
unfolding add_to_poller
reads_edge_triggered = refl
