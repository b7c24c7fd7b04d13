-- ===== src/ProxyOld/Config.antt =====
-- proxy_config.c: the settings of the proxy from its configuration file. What the configuration library finds is an
-- argument.
pub mod Laws
mod Tests
use tpt.Common.{
  ℕ, Bool, true, false, Option, none, some, List, [], ◌∷◌, ℤ, pos, minus, is_neg, strncpy,
  if◌then◌else◌,
}
use tpt.HimProxy.{Run, done, running, fault}

-- The texts of GetStrConf and the numbers of GetIntConf in the section of the proxy.
pub record Conf : Type 0 where
  pub listen_ip : Option (List ℕ)
  pub listen_port : ℤ
  pub child_count : ℤ
  pub log_level : ℤ
  pub workq_parallelism : ℤ
  pub workq_thread_timeout : ℤ
  pub workq_length : ℤ
  pub ip_transparency : ℤ

-- struct proxy_config
pub record ProxyConfig : Type 0 where
  pub listen_ip : List ℕ
  pub listen_port : ℤ
  pub child_count : ℤ
  pub log_level : ℤ
  pub workq_parallelism : ℤ
  pub workq_thread_timeout : ℤ
  pub workq_length : ℤ
  pub ip_transparency : ℤ

abbrev pub or_default : (default : ℕ) → ℤ → ℤ
or_default d n = if is_neg n then pos d else n

-- "0.0.0.0"
abbrev pub any_ip : List ℕ
any_ip = 48 ∷ 46 ∷ 48 ∷ 46 ∷ 48 ∷ 46 ∷ 48 ∷ []

-- char listen_ip[16]
abbrev pub ip_size : ℕ
ip_size = 16

-- The source copies from the pointer when it is NULL.
pub set_listen_ip : Option (List ℕ) → Run (List ℕ)
set_listen_ip none = fault
set_listen_ip (some str) = done (strncpy ip_size any_ip)

-- `given` says that neither pointer is NULL.
pub get_proxy_config : (given : Bool) → Conf → ProxyConfig → Run (ℤ × ProxyConfig)
unfolding set_listen_ip
get_proxy_config false conf old = done (minus 1, old)
get_proxy_config true conf old = elim (set_listen_ip conf.listen_ip) [
  | fault ↦ fault
  | running ↦ running
  | done ip ↦ done (
    pos 0,
    record {
      listen_ip = ip;
      listen_port = or_default 9001 conf.listen_port;
      child_count = or_default 1 conf.child_count;
      log_level = or_default 4 conf.log_level;
      workq_parallelism = or_default 25 conf.workq_parallelism;
      workq_thread_timeout = or_default 10 conf.workq_thread_timeout;
      workq_length = or_default 0 conf.workq_length;
      ip_transparency = or_default 0 conf.ip_transparency;
    },
  )
]

-- `file` says that conf_file is not NULL; `load` is what jsf_conf_load returns. A file that has been loaded has a handle.
pub get_config : (file : Bool) → (load : ℤ) → Conf → ProxyConfig → Run (ℤ × ProxyConfig)
unfolding get_proxy_config
get_config false load conf old = done (minus 1, old)
get_config true load conf old =
    if is_neg load then done (minus 1, old) else get_proxy_config true conf old
