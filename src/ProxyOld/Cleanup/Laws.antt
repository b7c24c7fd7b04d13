-- ===== src/ProxyOld/Cleanup/Laws.antt =====
-- What a child's cleanup leaves open.
use tpt.Common.{◌≡◌, refl, true, false, pos, int_eq, Bool-cases, inl, inr, not, ◌&&◌}
use tpt.ProxyOld.Poller.{Started, destroy_poller}
use tpt.ProxyOld.Cleanup.{Process, Ends, proxy_child_cleanup}

-- The descriptor and the events of a poller are given back whatever its thread answers, and the thread stands on only
-- if it cannot be cancelled.
abbrev pub Stopped : Ends → (before after : Started) → Type 0
Stopped e before after =
    (after.epoll_open ≡ false)
    × (after.events ≡ false)
    × (after.thread ≡ (not (int_eq e.cancel (pos 0)) && before.thread))

destroy_poller-Stopped :
    (e : Ends) (s : Started) → Stopped e s (destroy_poller true e.cancel e.join s)
unfolding destroy_poller
destroy_poller-Stopped e s = elim (Bool-cases (int_eq e.cancel (pos 0))) [
  | inr stands ↦ rw stands (refl, refl, refl)
  | inl gone ↦ elim (Bool-cases (int_eq e.join (pos 0))) [
    | inl joined ↦ rw (gone, joined) (refl, refl, refl)
    | inr lost ↦ rw (gone, lost) (refl, refl, refl)
  ]
]

-- The child's cleanup closes the listening socket and the log, and stops both pollers, whatever their threads answer.
pub proxy_child_cleanup-Stopped :
    (c s : Ends) (p : Process)
    → ((proxy_child_cleanup c s p).1.listening ≡ false)
      × ((proxy_child_cleanup c s p).1.log ≡ false)
      × Stopped c p.clients (proxy_child_cleanup c s p).1.clients
      × Stopped s p.servers (proxy_child_cleanup c s p).1.servers
unfolding proxy_child_cleanup
proxy_child_cleanup-Stopped c s p =
    (refl, refl, destroy_poller-Stopped c p.clients, destroy_poller-Stopped s p.servers)
