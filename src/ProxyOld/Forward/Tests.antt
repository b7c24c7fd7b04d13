-- ===== src/ProxyOld/Forward/Tests.antt =====
-- A request whose Host value holds a 0 byte.
use tpt.Common.{◌≡◌, refl, true, false, none, some, [], ◌∷◌, pos}
use tpt.ProxyOld.Forward.{Answers, get_os_info, Forwarded}

abbrev answers : Answers
answers = record {
  header = pos 0;
  value = 97 ∷ 0 ∷ 98 ∷ [];
  memory = true;
  getaddrinfo = pos 0;
  address = 49 ∷ [];
  copied = true;
}

cut_host :
    get_os_info answers (some (record { host = none; dest_ip = none }))
    ≡ (pos 0, some (record { host = some (97 ∷ []); dest_ip = some (49 ∷ []) }))
unfolding get_os_info
cut_host = refl

abbrev client : Forwarded
client = record {
  curr_req = some (record { host = none; dest_ip = none });
  ip_transparency = false;
  answers = answers;
  calls = record {
    socket = pos 7;
    transparent = pos 0;
    client_aton = true;
    aton = true;
    bind = pos 0;
    listen = pos 0;
    connect = pos 0;
  };
}
