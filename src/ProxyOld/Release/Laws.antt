-- ===== src/ProxyOld/Release/Laws.antt =====
-- Everything that a client's struct leads to is freed once.
use tpt.Common.{
  ℕ, zero, suc, ◌<◌, ◌≡◌, refl, ap, ◌∙◌, Bool, true, false, ◌||◌, Option, none, some, List, [], ◌∷◌,
  ◌++◌, length, ℤ, pos, minus, is_neg, arith, ◌==◌, if◌then◌else◌,
}
use tpt.Common.Cells.{
  Ptr, null, Heap, Cells, write, load, Chain, Freed, Chain-tail, load-at, null-ne_of_cons,
}
use tpt.ProxyOld.Release.{
  Req, Released, free_proxy_req_info, or_error, free_loop, free_proxy_req_list, Info,
  free_proxy_info,
}

-- The blocks of a list of requests, in order.
abbrev pub blocks : Cells Req → List Ptr
blocks [] = []
blocks ((a, req) ∷ xs) = (req.host ∷ req.dest_ip ∷ req.http_request_info ∷ a ∷ []) ++ blocks xs

-- Whether http_request_info_free fails for one of them.
abbrev pub any_fails : (Ptr → ℤ) → Cells Req → Bool
any_fails http_free [] = false
any_fails http_free ((a, req) ∷ xs) =
    is_neg (http_free req.http_request_info) || any_fails http_free xs

errors_added :
    (b c : Bool) (ret : ℤ)
    → (if c then minus 1 else or_error ret (if b then minus 1 else pos 0))
      ≡ (if b || c then minus 1 else ret)
errors_added true true ret = refl
errors_added true false ret = refl
errors_added false true ret = refl
errors_added false false ret = refl

error_kept :
    (b : Bool) → or_error (pos 0) (if b then minus 1 else pos 0) ≡ (if b then minus 1 else pos 0)
error_kept true = refl
error_kept false = refl

-- What free_proxy_info makes of the outcome of the list.
abbrev then_info : Info → Option Released → Option Released
then_info info none = none
then_info info (some r) = some (record {
  ret = or_error (pos 0) r.ret;
  freed = (info.client_buf ∷ r.freed) ++ (info.address ∷ []);
  heap = r.heap;
})

abbrev released : ℤ → Ptr → Req → Cells Req → Heap Req → Released
released ret a req xs g = record { ret = ret; freed = blocks ((a, req) ∷ xs); heap = g }

module _ (http_free : Ptr → ℤ) where
  free_proxy_req_info-blocks :
      (h : Heap Req) (node q : Ptr) (req : Req)
      → load h node ≡ some (req, q)
      → free_proxy_req_info http_free node h
        ≡ some (record {
          ret = if is_neg (http_free req.http_request_info) then minus 1 else pos 0;
          freed = req.host ∷ req.dest_ip ∷ req.http_request_info ∷ node ∷ [];
          heap = write h node none;
        })
  unfolding free_proxy_req_info
  free_proxy_req_info-blocks h node q req at = rw (at, free_proxy_req_info) refl

  -- A round of the loop, and the rounds after it.
  abbrev after_one : Ptr → Req → Option Released → Option Released
  after_one node req none = none
  after_one node req (some rest) = some (record rest {
    freed = (req.host ∷ req.dest_ip ∷ req.http_request_info ∷ node ∷ []) ++ rest.freed;
  })

  free_loop-round :
      (k : ℕ) (h : Heap Req) (curr q : Ptr) (ret : ℤ) (req : Req)
      → (curr == null) ≡ false
      → load h curr ≡ some (req, q)
      → free_loop (suc k) http_free curr ret h
        ≡ after_one curr req (
            free_loop k http_free q
              (or_error ret (if is_neg (http_free req.http_request_info) then minus 1 else pos 0))
              (write h curr none))
  unfolding free_loop
  free_loop-round k h curr q ret req given at =
      ground (arith, free_proxy_req_info-blocks h curr q req at)

  free_loop-blocks :
      (k : ℕ) (h : Heap Req) (curr : Ptr) (ret : ℤ) (xs : Cells Req)
      → Chain h curr xs
      → length xs < k
      → (g : Heap Req) × (free_loop k http_free curr ret h
          ≡ some (record {
            ret = if any_fails http_free xs then minus 1 else ret;
            freed = blocks xs;
            heap = g;
          }))
        × Freed xs h g
  unfolding free_loop
  free_loop-blocks zero h curr ret xs c fuel = absurd (omega arith)
  free_loop-blocks (suc k) h curr ret [] c fuel =
      let at_end : (curr == null) ≡ true = ground arith in (h, rw at_end refl, λ a. refl)
  free_loop-blocks (suc k) h curr ret ((a, req) ∷ xs) (e, na, out, (q, at, rest)) fuel =
      let found = load-at h curr a req q e na at in
      let next : ℤ =
        or_error ret (if is_neg (http_free req.http_request_info) then minus 1 else pos 0) in
      let (g, run, freed) =
        free_loop-blocks k (write h curr none) q next xs (Chain-tail h curr q xs (rw e out) rest)
          (omega arith) in
      (
        g,
        free_loop-round k h curr q ret req
              (null-ne_of_cons h curr (a, req) xs (e, na, out, (q, at, rest))) found
            ∙ rw (run, e)
                (ap (λ (r : ℤ). some (released r a req xs g))
                  (errors_added (is_neg (http_free req.http_request_info)) (any_fails http_free xs)
                    ret)),
        λ b. ground (arith, freed b),
      )

  -- free_proxy_info of a client that no other thread uses frees its buffer, every block of every request in the order of
  -- the list, and the struct, each once and nothing else; no request is left, and the result is 0 unless
  -- http_request_info_free has failed for some request, which stops nothing.
  pub free_proxy_info-blocks :
      (k : ℕ) (h : Heap Req) (info : Info) (xs : Cells Req)
      → Chain h info.curr_req xs
      → length xs < k
      → (g : Heap Req) × (free_proxy_info k http_free (some (some info)) h
          ≡ some (record {
            ret = if any_fails http_free xs then minus 1 else pos 0;
            freed = (info.client_buf ∷ blocks xs) ++ (info.address ∷ []);
            heap = g;
          }))
        × Freed xs h g
  unfolding free_proxy_info free_proxy_req_list
  free_proxy_info-blocks k h info xs c fuel =
      let (g, run, freed) = free_loop-blocks k h info.curr_req (pos 0) xs c fuel in
      (
        g,
        ap (then_info info) run
            ∙ ap
                (λ (r : ℤ). some (record {
                  ret = r;
                  freed = (info.client_buf ∷ blocks xs) ++ (info.address ∷ []);
                  heap = g;
                }))
                (error_kept (any_fails http_free xs)),
        freed,
      )
