-- ===== src/ProxyOld/Release/Tests.antt =====
-- A client with two requests, of which the second cannot be freed whole.
use tpt.Common.{◌≡◌, refl, none, some, [], ◌∷◌, ℤ, pos, minus, arith, ◌==◌, if◌then◌else◌}
use tpt.Common.Cells.{Ptr, Heap, Cells, Freed, write}
use tpt.ProxyOld.Release.{Req, Info, free_proxy_info}
use tpt.ProxyOld.Release.Laws.{free_proxy_info-blocks}

abbrev second_fails : Ptr → ℤ
second_fails p = if p == 23 then minus 5 else pos 0

abbrev first : Req
first = record { host = 11; dest_ip = 12; http_request_info = 13 }

abbrev second : Req
second = record { host = 21; dest_ip = 22; http_request_info = 23 }

abbrev requests : Heap Req
requests = write (write (λ a. none) 10 (some (first, 20))) 20 (some (second, 0))

abbrev listed : Cells Req
listed = (10, first) ∷ (20, second) ∷ []

abbrev client : Info
client = record { address = 1; client_buf = 2; curr_req = 10 }

free_proxy_info-blocks_example :
    (g : Heap Req) × (free_proxy_info 3 second_fails (some (some client)) requests
      ≡ some (record {
        ret = minus 1;
        freed = 2 ∷ 11 ∷ 12 ∷ 13 ∷ 10 ∷ 21 ∷ 22 ∷ 23 ∷ 20 ∷ 1 ∷ [];
        heap = g;
      }))
    × Freed listed requests g
free_proxy_info-blocks_example =
    free_proxy_info-blocks second_fails 3 requests client listed
      (refl, omega arith, refl, (20, refl, (refl, omega arith, refl, (0, refl, refl))))
      (omega arith)
