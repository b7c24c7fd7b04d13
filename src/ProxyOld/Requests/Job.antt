-- ===== src/ProxyOld/Requests/Job.antt =====
-- The job of a work queue's thread, reading and parsing together.
use tpt.Common.{
  ℕ, ◌+◌, ◌≤◌, ◌<◌, ◌≡◌, refl, sym, ap, subst, ◌∙◌, ◌⊎◌, inl, inr, Bool, true, Option, none, some,
  List, ◌++◌, length, drop, take, take-all, is_some, ◌*◌, ◌^◌, ℤ, pos, arith,
}
use tpt.HimProxy.{Run, done, running}
use tpt.ProxyOld.{Block, ReqInfo, ProxyInfo}
use tpt.ProxyOld.Buffer.{Round, recv_client_data}
use tpt.ProxyOld.Requests.{
  Parsed, malformed, incomplete, unparsed, parse_request_buffer, Ended, kept, receive_parse_request,
}
use tpt.ProxyOld.Requests.Cuts.{listed, sum, granted, Cuts}
use tpt.ProxyOld.Requests.Laws.{IsParser, parse_request_buffer-either}
use tpt.ProxyOld.Buffer.{realloc_limit}
use tpt.ProxyOld.Buffer.Filled.{content_of, Filled}
use tpt.ProxyOld.Buffer.Laws.{obeys, incoming, verdict, CollectsFor, recv_client_data-Appends}

Filled-unparsed :
    (p : ProxyInfo) (b : Block) (content : List ℕ)
    → Filled p content
    → p.client_buf ≡ some b
    → unparsed b p ≡ drop p.client_buf_parsed_len content
Filled-unparsed p b content f here =
    let same : b.content ≡ content = ap content_of (sym here) ∙ f.contents in
    ap (drop p.client_buf_parsed_len)
      (ap (take p.client_buf_curr_len) same ∙ take-all _ content (omega (arith, f.filled)))

block_of : (o : Option Block) → is_some o ≡ true → (b : Block) × (o ≡ some b)
block_of none h = absurd (ground arith)
block_of (some b) h = (b, refl)

module _ (http_parse_request : List ℕ → Parsed) where
  job-kept :
      (rounds : List Round) (p p' p'' : ProxyInfo) (fuel : ℕ) (memory : List Bool)
      → recv_client_data rounds (some p) ≡ done (pos 1, some p')
      → parse_request_buffer http_parse_request fuel memory p' ≡ done (pos 1, p'')
      → receive_parse_request http_parse_request rounds fuel memory (some p) ≡ done (kept p'')
  unfolding receive_parse_request
  job-kept rounds p p' p'' fuel memory got returns = rw (receive_parse_request, got, returns) refl

  job-running :
      (rounds : List Round) (p p' : ProxyInfo) (fuel : ℕ) (memory : List Bool)
      → recv_client_data rounds (some p) ≡ done (pos 1, some p')
      → parse_request_buffer http_parse_request fuel memory p' ≡ running
      → receive_parse_request http_parse_request rounds fuel memory (some p) ≡ running
  unfolding receive_parse_request
  job-running rounds p p' fuel memory got hangs = rw (receive_parse_request, got, hangs) refl

  -- The unparsed bytes are requests up to an incomplete one, and the connection stays, with one entry for each.
  abbrev pub Serves : (text : List ℕ) → ProxyInfo → Run Ended → Type 0
  Serves text p r =
      (ns : List ℕ) × (rest : List ℕ) × (address : ℕ) × (p' : ProxyInfo) × Cuts http_parse_request
        incomplete text ns rest
      × (r ≡ done (kept p'))
      × (p'.curr_req ≡ p.curr_req ++ listed address p.client_buf_parsed_len ns)
      × (p'.client_buf_parsed_len ≡ p.client_buf_parsed_len + sum ns)

  -- They are requests up to a malformed one, and the thread does not come back.
  abbrev pub Hangs : (text : List ℕ) → Run Ended → Type 0
  Hangs text r =
      (ns : List ℕ) × (rest : List ℕ) × Cuts http_parse_request malformed text ns rest
      × (r ≡ running)

  -- When recv_client_data has read all there is, that is, on EAGAIN, receive_parse_request lists in order every complete
  -- request among the bytes that were unparsed and those that came in, and keeps the connection; or it
  -- meets a malformed request and never returns. The conditions are those of the two halves.
  pub receive_parse_request-Serves :
      (rounds : List Round) (p : ProxyInfo) (content : List ℕ) (fuel : ℕ) (memory : List Bool)
      → IsParser http_parse_request
      → Filled p content
      → obeys rounds p ≡ true
      → 2 * (p.client_buf_curr_len + length (incoming rounds) + realloc_limit) < 2 ^ 31
      → verdict rounds ≡ some (pos 1)
      → length (drop p.client_buf_parsed_len (content ++ incoming rounds)) ≤ granted memory
      → length memory < fuel
      → Serves
          (drop p.client_buf_parsed_len (content ++ incoming rounds))
          p
          (receive_parse_request http_parse_request rounds fuel memory (some p))
        ⊎ Hangs
            (drop p.client_buf_parsed_len (content ++ incoming rounds))
            (receive_parse_request http_parse_request rounds fuel memory (some p))
  receive_parse_request-Serves rounds p content fuel memory parser f ok small drained enough long =
      let (p', got, (reqs, parsed), good) =
        subst
          (λ (v : Option ℤ).
            CollectsFor v (content ++ incoming rounds) p (recv_client_data rounds (some p)))
          drained (recv_client_data-Appends rounds p content f ok small) in
      let (f', block) = good refl in
      let (b, here) = block_of p'.client_buf block in
      let text : List ℕ = drop p.client_buf_parsed_len (content ++ incoming rounds) in
      let same : unparsed b p' ≡ text =
        Filled-unparsed p' b _ f' here
        ∙ ap (λ (n : ℕ). drop n (content ++ incoming rounds)) parsed in
      elim (parse_request_buffer-either http_parse_request p' b fuel memory parser here
        (subst (λ (t : List ℕ). length t ≤ granted memory) (sym same) enough) long) [
          | inl (ns, rest, p'', cuts, returns, l) ↦ inl (
            ns,
            rest,
            b.address,
            p'',
            subst (λ (t : List ℕ). Cuts http_parse_request incomplete t ns rest) same cuts,
            job-kept rounds p p' p'' fuel memory got returns,
            l.reqs
                ∙ ap (λ (q : List ReqInfo). q ++ listed b.address p'.client_buf_parsed_len ns) reqs
                ∙ ap (λ (n : ℕ). p.curr_req ++ listed b.address n ns) parsed,
            l.parsed ∙ ap (λ (n : ℕ). n + sum ns) parsed,
          )
          | inr (ns, rest, cuts, hangs) ↦ inr (
            ns,
            rest,
            subst (λ (t : List ℕ). Cuts http_parse_request malformed t ns rest) same cuts,
            job-running rounds p p' fuel memory got (hangs fuel memory),
          )
        ]
