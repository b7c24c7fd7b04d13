-- ===== src/ProxyOld/Forward.antt =====
-- proxy_request_forwarder.c: the server that a request is for. http_get_header_value and dns_lookup come from elsewhere;
-- what they answer is an argument.
mod Laws
mod Tests
use tpt.Common.{
  ℕ, Bool, true, false, not, Option, none, some, List, [], ◌∷◌, ◌++◌, take, ℤ, pos, minus, is_neg,
  int_eq, is_some, zero, suc, if◌then◌else◌,
}
use tpt.HimProxy.{Run, done, running, fault}
use tpt.ProxyOld.Net.{Socket, Calls, tcp_connect_to_server, tcp_transparent_connect_to_server}

-- The fields of struct proxy_req_info that get_os_info fills in.
pub record ReqServer : Type 0 where
  pub host : Option (List ℕ)
  pub dest_ip : Option (List ℕ)

-- The result of http_get_header_value with the bytes of the value, whether calloc finds memory, the result of getaddrinfo
-- with the text of the first address, and whether strdup finds memory for it.
pub record Answers : Type 0 where
  pub header : ℤ
  pub value : List ℕ
  pub memory : Bool
  pub getaddrinfo : ℤ
  pub address : List ℕ
  pub copied : Bool

-- The copy of the value ends at its first 0 byte, as a string does.
abbrev pub text_of : List ℕ → List ℕ
text_of [] = []
text_of (zero ∷ bs) = []
text_of (suc n ∷ bs) = suc n ∷ text_of bs

-- dns_lookup of proxy_dns_lookup.c: its result, and `*ip_address` if it is written, where NULL is `none`. `given` says that no
-- pointer is NULL, `memory` that strdup finds memory.
pub dns_lookup :
    (given : Bool)
    → (getaddrinfo : ℤ) → (address : List ℕ) → (memory : Bool) → (old : Option (List ℕ))
    → ℤ × Option (List ℕ)
dns_lookup given ret address memory old =
    if not given
    then (minus 1, old)
    else if is_neg ret
    then (minus 1, old)
    else (ret, if memory then some address else none)

-- The argument is `none` for NULL; the result comes with the struct as it is then.
pub get_os_info : Answers → Option ReqServer → ℤ × Option ReqServer
unfolding dns_lookup
get_os_info a none = (minus 1, none)
get_os_info a (some r) =
    if is_neg a.header
    then (minus 1, some r)
    else if not a.memory
    then (minus 1, some (record r { host = none }))
    else let (ret, ip) = dns_lookup true a.getaddrinfo a.address a.copied r.dest_ip in
      (
        if is_neg ret then minus 1 else ret,
        some (record { host = some (text_of a.value); dest_ip = ip }),
      )

-- The request at the head of the client's list, whether its address is to be kept, and the answers on the way.
pub record Forwarded : Type 0 where
  pub curr_req : Option ReqServer
  pub ip_transparency : Bool
  pub answers : Answers
  pub calls : Calls

-- Behind `proxy_info`, which is `none` for NULL: the connection to the server, if one is tried, with the address that is
-- given to it.
pub forward_with : Option Forwarded → Run (Option (Option (List ℕ) × Socket))
unfolding get_os_info
forward_with none = fault
forward_with (some p) =
    let (ret, req) = get_os_info p.answers p.curr_req in
    let ip : Option (List ℕ) = elim req [ none ↦ none | some r ↦ r.dest_ip ] in
    if is_neg ret
    then done none
    else if p.ip_transparency
    then done (some (ip, tcp_transparent_connect_to_server (is_some ip) (pos 80) p.calls))
    else done (some (ip, tcp_connect_to_server (is_some ip) (pos 80) p.calls))

-- The local `proxy_info` is NULL, and `arg` is not put into it.
pub forward_request : (arg : Option Forwarded) → Run (Option (Option (List ℕ) × Socket))
unfolding forward_with
forward_request none = done none
forward_request (some arg) = forward_with none
