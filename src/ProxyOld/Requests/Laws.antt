-- ===== src/ProxyOld/Requests/Laws.antt =====
-- The requests in the buffer are listed one behind the other, until the parser finds one incomplete; a
-- malformed one holds the loop for ever.
use tpt.Common.{
  ℕ, zero, suc, ◌≤◌, ◌<◌, ◌≡◌, refl, ap, ◌∙◌, ◌⊎◌, inl, inr, Bool, Option, none, some, List, [],
  ◌∷◌, length, length-drop, ◌-◌, drop, ℤ, pos, arith,
}
use tpt.HimProxy.{Run, done, running, fault}
use tpt.ProxyOld.{Block, ProxyInfo}
use tpt.ProxyOld.Requests.{
  Parsed, malformed, request, incomplete, unparsed, parse_loop, parse_request_buffer,
}
use tpt.ProxyOld.Requests.Cuts.{
  granted, Cuts, stops, cut, Listed, parse_loop-Listed, parse_loop-running,
}

module _ (http_parse_request : List ℕ → Parsed) where
  -- A request has headers, and they are in the text.
  abbrev pub IsParser : Type 0
  IsParser =
      (text : List ℕ) (n : ℕ) → http_parse_request text ≡ request n → (0 < n) × (n ≤ length text)

  -- Every text is cut up to one that is incomplete, or up to a malformed one.
  abbrev pub CutSomehow : List ℕ → Type 0
  CutSomehow text =
      (ns : List ℕ) × (rest : List ℕ) × (length ns ≤ length text)
      × (Cuts http_parse_request incomplete text ns rest
          ⊎ Cuts http_parse_request malformed text ns rest)

  cuts_more :
      (text : List ℕ) (a : Parsed)
      → IsParser
      → http_parse_request text ≡ a
      → ((n : ℕ) → http_parse_request text ≡ request n → CutSomehow (drop n text))
      → CutSomehow text
  cuts_more text malformed parser e later = ([], text, omega arith, inr (stops text e))
  cuts_more text incomplete parser e later = ([], text, omega arith, inl (stops text e))
  cuts_more text (request n) parser e later =
      let (some_headers, inside) = parser text n e in
      let shorter : length (drop n text) ≤ length text - n =
        length-drop n (length text - n) text (omega arith) in
      let (ns, rest, few, which) = later n e in
      (
        n ∷ ns,
        rest,
        omega arith,
        elim which [
          | inl fine ↦ inl (cut text n ns rest e fine)
          | inr bad ↦ inr (cut text n ns rest e bad)
        ],
      )

  cuts_of : IsParser → (bound : ℕ) (text : List ℕ) → length text ≤ bound → CutSomehow text
  cuts_of parser zero text small =
      cuts_more text (http_parse_request text) parser refl
        (λ n e. let (some_headers, inside) = parser text n e in absurd (omega arith))
  cuts_of parser (suc bound) text small =
      cuts_more text (http_parse_request text) parser refl (λ n e.
        let (some_headers, inside) = parser text n e in
        cuts_of parser bound (drop n text) (length-drop n bound text (omega arith)))

  -- A block whose text is cut as far as an incomplete request: all requests before it are listed.
  abbrev pub ListsAll : (memory : List Bool) → Block → ProxyInfo → Run (ℤ × ProxyInfo) → Type 0
  ListsAll memory b p r =
      (ns : List ℕ) × (rest : List ℕ) × (p' : ProxyInfo) × Cuts http_parse_request incomplete
        (unparsed b p) ns rest
      × (r ≡ done (pos 1, p'))
      × Listed http_parse_request b p p' ns rest

  -- A text in which the parser meets a malformed request: no fuel is enough.
  abbrev pub HangsIn : Block → ProxyInfo → Type 0
  HangsIn b p =
      (ns : List ℕ) × (rest : List ℕ) × Cuts http_parse_request malformed (unparsed b p) ns rest
      × ((fuel : ℕ) (memory : List Bool)
          → parse_request_buffer http_parse_request fuel memory p ≡ running)

  parse_request_buffer-loop :
      (p : ProxyInfo) (b : Block) (fuel : ℕ) (memory : List Bool)
      → p.client_buf ≡ some b
      → parse_request_buffer http_parse_request fuel memory p
        ≡ parse_loop http_parse_request fuel memory b p
  unfolding parse_request_buffer
  parse_request_buffer-loop p b fuel memory here =
      ap
        (λ (o : Option Block). elim o as (λ _. Run (ℤ × ProxyInfo)) [
          | none ↦ fault
          | some b' ↦ parse_loop http_parse_request fuel memory b' p
        ])
        here

  -- For a parser that finds a request's headers in the text, at least one byte long. When the unparsed bytes are
  -- requests up to one that is incomplete, parse_request_buffer returns 1, as soon as calloc has found memory
  -- for each of them, with one entry for each behind those in the list, in order and without gaps, and with the
  -- incomplete one left to parse. Otherwise they run up to a malformed request, and it never returns.
  pub parse_request_buffer-either :
      (p : ProxyInfo) (b : Block) (fuel : ℕ) (memory : List Bool)
      → IsParser
      → p.client_buf ≡ some b
      → length (unparsed b p) ≤ granted memory
      → length memory < fuel
      → ListsAll memory b p (parse_request_buffer http_parse_request fuel memory p) ⊎ HangsIn b p
  parse_request_buffer-either p b fuel memory parser here enough long =
      let (ns, rest, few, which) =
        cuts_of parser (length (unparsed b p)) (unparsed b p) (omega arith) in
      elim which [
        | inl fine ↦
            let (p', returns, l) =
              parse_loop-Listed http_parse_request fuel memory b p (unparsed b p) ns rest refl fine
                (omega arith) long in
            inl (ns, rest, p', fine, parse_request_buffer-loop p b fuel memory here ∙ returns, l)
        | inr bad ↦ inr (
          ns,
          rest,
          bad,
          λ fuel' memory'.
              parse_request_buffer-loop p b fuel' memory' here
              ∙ parse_loop-running http_parse_request fuel' memory' b p (unparsed b p) ns rest refl
                  bad,
        )
      ]
