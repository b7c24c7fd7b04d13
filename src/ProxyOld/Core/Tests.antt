-- ===== src/ProxyOld/Core/Tests.antt =====
-- Three clients, of which one cannot be registered, and the instance of the theorem there.
use tpt.Common.{◌≡◌, refl, true, false, List, [], ◌∷◌, pos, minus}
use tpt.HimProxy.{done, fault}
use tpt.ProxyOld.Core.{
  Accept, interrupted, broken, accepted, Child, add_to_request_poller, after_add, start_proxy,
}
use tpt.ProxyOld.Core.Laws.{start_proxy-served}

abbrev three : List Accept
three =
    accepted (record { sock = 7; non_blocking = pos 0; memory = true; added = pos 0 })
    ∷ interrupted
    ∷ accepted (record { sock = 8; non_blocking = pos 0; memory = true; added = minus 1 })
    ∷ accepted (record { sock = 9; non_blocking = pos 0; memory = true; added = pos 0 })
    ∷ broken
    ∷ []

abbrev none_yet : Child
none_yet = record { registered = []; closed = [] }

-- The result of calloc is used without a test.
no_memory :
    start_proxy
      (pos 0)
      (pos 0)
      (accepted (record { sock = 7; non_blocking = pos 0; memory = false; added = pos 0 }) ∷ [])
      none_yet
    ≡ fault
unfolding start_proxy add_to_request_poller after_add
no_memory = refl

start_proxy-served_example :
    start_proxy (pos 0) (pos 0) three none_yet
    ≡ done (record { registered = 7 ∷ 9 ∷ []; closed = 8 ∷ [] })
start_proxy-served_example = start_proxy-served (pos 0) (pos 0) three none_yet refl refl refl
