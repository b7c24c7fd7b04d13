-- ===== src/ProxyOld/Cleanup.antt =====
-- proxy_parent_cleanup and proxy_child_cleanup of proxy_core.c, which the signal handlers call, and free_config of
-- proxy_config.c.
mod Laws
use tpt.Common.{Bool, true, false, ℤ, pos}
use tpt.ProxyOld.Poller.{Started, destroy_poller}

-- The listening socket, the log, and the pollers of the clients and of the servers, as far as they are open.
pub record Process : Type 0 where
  pub listening : Bool
  pub log : Bool
  pub clients : Started
  pub servers : Started

-- The settings are static, so nothing is freed; free_config returns 0 whatever the other returns.
abbrev pub free_proxy_config : ℤ
free_proxy_config = pos 0

abbrev pub free_config : ℤ
free_config = pos 0

-- The result of free_config is only logged.
unfoldable pub proxy_parent_cleanup : Process → ℤ × Process
proxy_parent_cleanup p = (pos 0, record p { listening = false; log = false })

-- The results of pthread_cancel and pthread_join for a poller.
pub record Ends : Type 0 where
  pub cancel : ℤ
  pub join : ℤ

pub proxy_child_cleanup : (clients servers : Ends) → Process → ℤ × Process
proxy_child_cleanup c s p = (
  pos 0,
  record {
    listening = false;
    log = false;
    clients = destroy_poller true c.cancel c.join p.clients;
    servers = destroy_poller true s.cancel s.join p.servers;
  },
)
