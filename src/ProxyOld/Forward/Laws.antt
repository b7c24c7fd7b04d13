-- ===== src/ProxyOld/Forward/Laws.antt =====
-- Where a request would be forwarded to, and that it is not.
use tpt.Common.{
  ℕ, ◌≡◌, refl, Bool, true, false, Option, some, List, pos, is_neg, arith, if◌then◌else◌,
}
use tpt.HimProxy.{Run, done, fault}
use tpt.ProxyOld.Net.{Socket, tcp_connect_to_server, tcp_transparent_connect_to_server}
use tpt.ProxyOld.Forward.{
  ReqServer, Answers, text_of, get_os_info, Forwarded, forward_with, forward_request,
}

-- The server is found: get_os_info returns what getaddrinfo does, and fills in the name of the header and the address.
get_os_info-found :
    (a : Answers) (r : ReqServer)
    → is_neg a.header ≡ false
    → a.memory ≡ true
    → is_neg a.getaddrinfo ≡ false
    → a.copied ≡ true
    → get_os_info a (some r)
      ≡ (a.getaddrinfo, some (record { host = some (text_of a.value); dest_ip = some a.address }))
unfolding get_os_info
get_os_info-found a r found memory known copied = ground arith

abbrev pub connected : Option (List ℕ) → Socket → Run (Option (Option (List ℕ) × Socket))
connected ip s = done (some (ip, s))

by_setting :
    (b : Bool) (ip : Option (List ℕ)) (x y : Socket)
    → (if b then connected ip x else connected ip y) ≡ connected ip (if b then x else y)
by_setting true ip x y = refl
by_setting false ip x y = refl

-- With a Host header whose server is found, and memory for the texts, what stands behind the first lines of
-- forward_request connects to port 80 of that server; but forward_request itself, with whatever client, reads
-- through a NULL pointer before.
pub forward_request-faults :
    (p : Forwarded) (r : ReqServer)
    → p.curr_req ≡ some r
    → is_neg p.answers.header ≡ false
    → p.answers.memory ≡ true
    → is_neg p.answers.getaddrinfo ≡ false
    → p.answers.copied ≡ true
    → (forward_request (some p) ≡ fault)
      × (forward_with (some p)
          ≡ connected (some p.answers.address) (
              if p.ip_transparency
              then tcp_transparent_connect_to_server true (pos 80) p.calls
              else tcp_connect_to_server true (pos 80) p.calls))
unfolding forward_request forward_with
forward_request-faults p r asked found memory known copied = (
  refl,
  rw (asked, get_os_info-found p.answers r found memory known copied, known)
      (by_setting p.ip_transparency (some p.answers.address)
        (tcp_transparent_connect_to_server true (pos 80) p.calls)
        (tcp_connect_to_server true (pos 80) p.calls)),
)
