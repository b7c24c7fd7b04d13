-- ===== src/ProxyOld/Config/Laws.antt =====
-- Which settings a configuration file leads to.
use tpt.Common.{ℕ, ◌≡◌, refl, true, false, none, some, List, ℤ, pos, minus, is_neg, strncpy, arith}
use tpt.HimProxy.{done, fault}
use tpt.ProxyOld.Config.{Conf, ProxyConfig, or_default, any_ip, ip_size, set_listen_ip, get_config}

-- No number of the settings is negative.
abbrev pub IsUsable : ProxyConfig → Type 0
IsUsable c =
    (is_neg c.listen_port ≡ false)
    × (is_neg c.child_count ≡ false)
    × (is_neg c.log_level ≡ false)
    × (is_neg c.workq_parallelism ≡ false)
    × (is_neg c.workq_thread_timeout ≡ false)
    × (is_neg c.workq_length ≡ false)
    × (is_neg c.ip_transparency ≡ false)

or_default-not_neg : (d : ℕ) (n : ℤ) → is_neg (or_default d n) ≡ false
or_default-not_neg d n = ground arith

-- Once the file is loaded: when it has no ListenIP, get_config reads through a NULL pointer; when it has one, get_config
-- returns 0, none of the numbers is negative, and the address to listen on is 0.0.0.0,
-- whatever the file says.
pub get_config-listen_ip :
    (load : ℤ) (conf : Conf) (old : ProxyConfig)
    → is_neg load ≡ false
    → (conf.listen_ip ≡ none → get_config true load conf old ≡ fault)
      × ((ip : List ℕ)
          → conf.listen_ip ≡ some ip
          → (c : ProxyConfig) × (get_config true load conf old ≡ done (pos 0, c))
            × IsUsable c
            × (c.listen_ip ≡ strncpy ip_size any_ip))
unfolding get_config set_listen_ip
get_config-listen_ip load conf old loaded = (
  λ missing. rw (loaded, missing) refl,
  λ ip there.
      rw (loaded, there)
        (
          _,
          refl,
          (
            or_default-not_neg 9001 conf.listen_port,
            or_default-not_neg 1 conf.child_count,
            or_default-not_neg 4 conf.log_level,
            or_default-not_neg 25 conf.workq_parallelism,
            or_default-not_neg 10 conf.workq_thread_timeout,
            or_default-not_neg 0 conf.workq_length,
            or_default-not_neg 0 conf.ip_transparency,
          ),
          refl,
        ),
)

-- The settings that a file with an address to listen on gives.
abbrev pub settings_of : Conf → ProxyConfig
settings_of conf = record {
  listen_ip = strncpy ip_size any_ip;
  listen_port = or_default 9001 conf.listen_port;
  child_count = or_default 1 conf.child_count;
  log_level = or_default 4 conf.log_level;
  workq_parallelism = or_default 25 conf.workq_parallelism;
  workq_thread_timeout = or_default 10 conf.workq_thread_timeout;
  workq_length = or_default 0 conf.workq_length;
  ip_transparency = or_default 0 conf.ip_transparency;
}

pub get_config-loaded :
    (load : ℤ) (conf : Conf) (old : ProxyConfig) (ip : List ℕ)
    → is_neg load ≡ false
    → conf.listen_ip ≡ some ip
    → get_config true load conf old ≡ done (pos 0, settings_of conf)
unfolding get_config set_listen_ip
get_config-loaded load conf old ip loaded there = rw (loaded, there) refl

pub get_config-unloaded :
    (load : ℤ) (conf : Conf) (old : ProxyConfig)
    → is_neg load ≡ true
    → get_config true load conf old ≡ done (minus 1, old)
unfolding get_config
get_config-unloaded load conf old bad = rw bad refl
