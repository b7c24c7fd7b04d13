-- ===== src/ProxyOld/Config/Tests.antt =====
-- A file with an address to listen on and one negative number, and the instance of the theorem there.
use tpt.Common.{some, [], ◌∷◌, pos, minus}
use tpt.ProxyOld.Config.{Conf, ProxyConfig}

abbrev zeros : ProxyConfig
zeros = record {
  listen_ip = [];
  listen_port = pos 0;
  child_count = pos 0;
  log_level = pos 0;
  workq_parallelism = pos 0;
  workq_thread_timeout = pos 0;
  workq_length = pos 0;
  ip_transparency = pos 0;
}

-- ListenIP is "::1".
abbrev with_ip : Conf
with_ip = record {
  listen_ip = some (58 ∷ 58 ∷ 49 ∷ []);
  listen_port = minus 1;
  child_count = pos 4;
  log_level = pos 7;
  workq_parallelism = pos 2;
  workq_thread_timeout = pos 3;
  workq_length = pos 5;
  ip_transparency = pos 1;
}
