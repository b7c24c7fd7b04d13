-- ===== src/ProxyOld/Requests/Cuts.antt =====
-- The loop over the buffer: it lists the requests up to an incomplete one, and hangs at a malformed one.
use tpt.Common.{
  ℕ, zero, suc, ◌+◌, ◌≤◌, ◌<◌, ◌≡◌, refl, sym, ap, ◌∙◌, Bool, true, false, List, [], ◌∷◌, ◌++◌,
  length, drop, take, pos, arith,
}
use mathlib.Core.List.{append-nil, append_assoc}
use tpt.HimProxy.{done, running}
use tpt.ProxyOld.{Block, ReqInfo, ProxyInfo}
use tpt.ProxyOld.Requests.{Parsed, malformed, request, incomplete, unparsed, parse_loop}

-- The entries for requests of these header lengths, from `at` on.
abbrev pub listed : (address at : ℕ) → List ℕ → List ReqInfo
listed address at [] = []
listed address at (n ∷ ns) =
    record { req_buf = (address, at); req_buf_len = n } ∷ listed address (at + n) ns

abbrev pub sum : List ℕ → ℕ
sum [] = 0
sum (n ∷ ns) = n + sum ns

-- How many callocs find memory.
abbrev pub granted : List Bool → ℕ
granted [] = 0
granted (true ∷ ms) = suc (granted ms)
granted (false ∷ ms) = granted ms

drop-nil : (n : ℕ) → drop {A = ℕ} n [] ≡ []
drop-nil zero = refl
drop-nil (suc n) = refl

drop-add : (m n : ℕ) (xs : List ℕ) → drop (m + n) xs ≡ drop n (drop m xs)
drop-add zero n xs = ap (λ (k : ℕ). drop k xs) (omega arith)
drop-add (suc m) n [] = drop-nil (suc m + n) ∙ sym (drop-nil n)
drop-add (suc m) n (x ∷ xs) =
    let carried : suc m + n ≡ suc (m + n) = omega arith in
    ap (λ (k : ℕ). drop k (x ∷ xs)) carried ∙ drop-add m n xs

module _ (http_parse_request : List ℕ → Parsed) where
  -- The text starts with requests of these header lengths, and for what is left the parser answers `answer`.
  pub data Cuts (answer : Parsed) : (text : List ℕ) → List ℕ → (rest : List ℕ) → Type 0 where
    stops : (text : List ℕ) → http_parse_request text ≡ answer → Cuts answer text [] text
    cut :
        (text : List ℕ) (n : ℕ) (ns rest : List ℕ)
        → http_parse_request text ≡ request n
        → Cuts answer (drop n text) ns rest
        → Cuts answer text (n ∷ ns) rest

  -- The record with these requests listed.
  pub record Listed (b : Block) (p p' : ProxyInfo) (ns rest : List ℕ) : Type 0 where
    pub reqs : p'.curr_req ≡ p.curr_req ++ listed b.address p.client_buf_parsed_len ns
    pub parsed : p'.client_buf_parsed_len ≡ p.client_buf_parsed_len + sum ns
    pub left : unparsed b p' ≡ rest

  -- The record behind a request that has been listed.
  abbrev advanced : Block → ProxyInfo → (n : ℕ) → ProxyInfo
  advanced b p n = record p {
    curr_req =
        p.curr_req
        ++ (record { req_buf = (b.address, p.client_buf_parsed_len); req_buf_len = n } ∷ []);
    client_buf_parsed_len = p.client_buf_parsed_len + n;
  }

  unparsed-advanced :
      (b : Block) (p : ProxyInfo) (n : ℕ) (text : List ℕ)
      → unparsed b p ≡ text
      → unparsed b (advanced b p n) ≡ drop n text
  unparsed-advanced b p n text same =
      drop-add p.client_buf_parsed_len n (take p.client_buf_curr_len b.content) ∙ ap (drop n) same

  Listed-advanced :
      (b : Block) (p p' : ProxyInfo) (n : ℕ) (ns rest : List ℕ)
      → Listed b (advanced b p n) p' ns rest
      → Listed b p p' (n ∷ ns) rest
  Listed-advanced b p p' n ns rest l = record {
    reqs = l.reqs ∙ append_assoc p.curr_req _ _;
    parsed = omega (arith, l.parsed);
    left = l.left;
  }

  pub parse_loop-Listed :
      (fuel : ℕ) (memory : List Bool) (b : Block) (p : ProxyInfo) (text ns rest : List ℕ)
      → unparsed b p ≡ text
      → Cuts incomplete text ns rest
      → length ns ≤ granted memory
      → length memory < fuel
      → (p' : ProxyInfo) × (parse_loop http_parse_request fuel memory b p ≡ done (pos 1, p'))
        × Listed b p p' ns rest
  unfolding parse_loop
  parse_loop-Listed zero memory b p text ns rest same cuts enough long = absurd (omega arith)
  parse_loop-Listed (suc fuel) memory b p text ns rest same (stops t e) enough long =
      let here : http_parse_request (unparsed b p) ≡ incomplete = ap http_parse_request same ∙ e in
      rw (parse_loop, here)
        (p, refl, record { reqs = sym (append-nil p.curr_req); parsed = omega arith; left = same })
  parse_loop-Listed (suc fuel) [] b p text ns rest same (cut t n ns' r e cuts) enough long =
      absurd (omega arith)
  parse_loop-Listed (suc fuel) (false ∷ ms) b p text ns rest same (cut t n ns' r e cuts) enough
        long =
      let here : http_parse_request (unparsed b p) ≡ request n = ap http_parse_request same ∙ e in
      rw (parse_loop, here)
        (parse_loop-Listed fuel ms b p text ns rest same (cut t n ns' r e cuts) enough
          (omega arith))
  parse_loop-Listed (suc fuel) (true ∷ ms) b p text ns rest same (cut t n ns' r e cuts) enough
        long =
      let here : http_parse_request (unparsed b p) ≡ request n = ap http_parse_request same ∙ e in
      let (p', returns, l) =
        parse_loop-Listed fuel ms b (advanced b p n) (drop n text) ns' rest
          (unparsed-advanced b p n text same) cuts (omega arith) (omega arith) in
      rw (parse_loop, here) (p', returns, Listed-advanced b p p' n ns' rest l)

  pub parse_loop-running :
      (fuel : ℕ) (memory : List Bool) (b : Block) (p : ProxyInfo) (text ns rest : List ℕ)
      → unparsed b p ≡ text
      → Cuts malformed text ns rest
      → parse_loop http_parse_request fuel memory b p ≡ running
  unfolding parse_loop
  parse_loop-running zero memory b p text ns rest same cuts = refl
  parse_loop-running (suc fuel) memory b p text ns rest same (stops t e) =
      let here : http_parse_request (unparsed b p) ≡ malformed = ap http_parse_request same ∙ e in
      rw (parse_loop, here) (parse_loop-running fuel memory b p text ns rest same (stops t e))
  parse_loop-running (suc fuel) [] b p text ns rest same (cut t n ns' r e cuts) =
      let here : http_parse_request (unparsed b p) ≡ request n = ap http_parse_request same ∙ e in
      rw (parse_loop, here) refl
  parse_loop-running (suc fuel) (false ∷ ms) b p text ns rest same (cut t n ns' r e cuts) =
      let here : http_parse_request (unparsed b p) ≡ request n = ap http_parse_request same ∙ e in
      rw (parse_loop, here)
        (parse_loop-running fuel ms b p text ns rest same (cut t n ns' r e cuts))
  parse_loop-running (suc fuel) (true ∷ ms) b p text ns rest same (cut t n ns' r e cuts) =
      let here : http_parse_request (unparsed b p) ≡ request n = ap http_parse_request same ∙ e in
      rw (parse_loop, here)
        (parse_loop-running fuel ms b (advanced b p n) (drop n text) ns' rest
          (unparsed-advanced b p n text same) cuts)
