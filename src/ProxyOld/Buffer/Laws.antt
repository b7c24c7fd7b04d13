-- ===== src/ProxyOld/Buffer/Laws.antt =====
-- recv_client_data collects what comes in, in a block that always has room for more.
use tpt.Common.{
  ℕ, ◌+◌, ◌-◌, ◌*◌, ◌^◌, ◌≤◌, ◌<◌, ◌≡◌, refl, sym, ap, subst, ◌∙◌, Bool, true, false, ◌&&◌, Option,
  none, some, List, [], ◌∷◌, ◌++◌, length, length-append, ℤ, pos, minus, is_some, is_neg, leb,
  arith, and_left, and_right, leb→le,
}
use mathlib.Core.List.{append-nil, append_assoc}
use tpt.HimProxy.{Run, done, running, fault}
use tpt.ProxyOld.{Block, ProxyInfo}
use tpt.ProxyOld.Buffer.{
  realloc_limit, Recv, interrupted, again, broken, closed, got, Round, no_memory, round,
  wanted_size, alloc_client_buf, Step, stop, go, receive, one_round, recv_loop, recv_client_data,
}
use tpt.ProxyOld.Buffer.Filled.{
  Filled, SameRequests, wanted_size-Filled, alloc_client_buf-Filled, stored-Filled,
}

-- How many bytes recv is asked for.
abbrev pub asked : ProxyInfo → ℕ
asked p = elim (wanted_size (p.client_buf_size - p.client_buf_curr_len) p) [
  | none ↦ 0
  | some size ↦ size - p.client_buf_curr_len
]

-- The bytes that recv stores in the round.
abbrev pub arrived : Round → List ℕ
arrived (round address (got bytes)) = bytes
arrived _ = []

-- The result with which the round ends the loop: 1 for EAGAIN, 0 for the end of the stream, and -1.
abbrev pub ending : Round → Option ℤ
ending no_memory = some (minus 1)
ending (round address interrupted) = none
ending (round address again) = some (pos 1)
ending (round address broken) = some (minus 1)
ending (round address closed) = some (pos 0)
ending (round address (got bytes)) = none

-- recv never stores more than it is asked for.
unfoldable pub obeys : List Round → ProxyInfo → Bool
obeys [] p = true
obeys (r ∷ rs) p =
    let rest : Bool = elim (one_round r p) [ stop result ↦ true | go p' ↦ obeys rs p' ] in
    leb (length (arrived r)) (asked p) && rest

-- What is stored until the loop ends, and the result of that end.
abbrev pub incoming : List Round → List ℕ
incoming [] = []
incoming (r ∷ rs) = elim (ending r) [ none ↦ arrived r ++ incoming rs | some ret ↦ [] ]

abbrev pub verdict : List Round → Option ℤ
verdict [] = none
verdict (r ∷ rs) = elim (ending r) [ none ↦ verdict rs | some ret ↦ some ret ]

-- A round that stops with `ret`, or goes on with what arrived in the buffer.
abbrev Stepped : Option ℤ → (content bytes : List ℕ) → ProxyInfo → Step → Type 0
Stepped none content bytes p s =
    (p' : ProxyInfo) × (s ≡ go p')
    × SameRequests p p'
    × (p'.client_buf_curr_len ≡ p.client_buf_curr_len + length bytes)
    × Filled p' (content ++ bytes)
Stepped (some ret) content bytes p s =
    (p' : ProxyInfo) × (s ≡ stop (done (ret, p')))
    × SameRequests p p'
    × (is_neg ret ≡ false → Filled p' content × (is_some p'.client_buf ≡ true))

Stepped-block :
    (o : Option ℤ) (content bytes : List ℕ) (p : ProxyInfo) (block : Option Block) (size : ℕ)
    (s : Step)
    → Stepped o content bytes (record p { client_buf = block; client_buf_size = size }) s
    → Stepped o content bytes p s
Stepped-block none content bytes p block size s h = h
Stepped-block (some ret) content bytes p block size s h = h

receive-Stepped :
    (address : ℕ) (recv : Recv) (p : ProxyInfo) (content : List ℕ)
    → is_some p.client_buf ≡ true
    → realloc_limit ≤ p.client_buf_size
    → Filled p content
    → length (arrived (round address recv)) ≤ p.client_buf_size - p.client_buf_curr_len
    → Stepped
        (ending (round address recv))
        content
        (arrived (round address recv))
        p
        (receive recv p)
unfolding receive
receive-Stepped address interrupted p content block wide f fits =
    (p, refl, (refl, refl), omega arith, rw (append-nil content) f)
receive-Stepped address again p content block wide f fits = (p, refl, (refl, refl), λ h. (f, block))
receive-Stepped address broken p content block wide f fits =
    (p, refl, (refl, refl), λ h. (f, block))
receive-Stepped address closed p content block wide f fits =
    (p, refl, (refl, refl), λ h. (f, block))
receive-Stepped address (got bytes) p content block wide f fits =
    let (p', e, f', len, same) =
      stored-Filled p content bytes block f wide (omega (arith, f.within)) in
    (p', rw (receive, e) refl, same, len, f')

one_round-Stepped :
    (r : Round) (p : ProxyInfo) (content : List ℕ)
    → Filled p content
    → length (arrived r) ≤ asked p
    → 2 * (p.client_buf_curr_len + realloc_limit) < 2 ^ 31
    → Stepped (ending r) content (arrived r) p (one_round r p)
unfolding one_round alloc_client_buf
one_round-Stepped no_memory p content f fits small =
    let (size, e, wide) = wanted_size-Filled p content f small in
    (
      record p { client_buf_size = size },
      rw (one_round, e) refl,
      (refl, refl),
      λ h. absurd (ground arith),
    )
one_round-Stepped (round address recv) p content f fits small =
    let (size, e, wide) = wanted_size-Filled p content f small in
    let p' : ProxyInfo = (alloc_client_buf (some address) size p).1 in
    let asks : asked p ≡ size - p.client_buf_curr_len = rw (asked, e) refl in
    rw (one_round, e)
      (Stepped-block (ending (round address recv)) content (arrived (round address recv)) p _ _
        (receive recv p')
        (receive-Stepped address recv p' content refl (omega arith)
          (alloc_client_buf-Filled address size p content f wide) (omega (arith, fits, asks))))

-- A run that waits as long as nothing ends it, and else returns the verdict, with the requests as they
-- were, and with a buffer that has `content` in it if that is not negative.
abbrev pub Collects : Option ℤ → (content : List ℕ) → ProxyInfo → Run (ℤ × ProxyInfo) → Type 0
Collects none content p r = r ≡ running
Collects (some ret) content p r =
    (p' : ProxyInfo) × (r ≡ done (ret, p'))
    × SameRequests p p'
    × (is_neg ret ≡ false → Filled p' content × (is_some p'.client_buf ≡ true))

Collects-same :
    (v : Option ℤ) (content : List ℕ) (p q : ProxyInfo) (r : Run (ℤ × ProxyInfo))
    → SameRequests p q
    → Collects v content q r
    → Collects v content p r
Collects-same none content p q r s c = c
Collects-same (some ret) content p q r (s, t) (p', e, (s', t'), good) =
    (p', e, (s' ∙ s, t' ∙ t), good)

-- One round, then the rest of the loop.
next-Collects :
    (o : Option ℤ) (s : Step) (v : Option ℤ) (content bytes more : List ℕ) (p : ProxyInfo)
    (rest : ProxyInfo → Run (ℤ × ProxyInfo))
    → Stepped o content bytes p s
    → ((p' : ProxyInfo)
        → s ≡ go p'
        → p'.client_buf_curr_len ≡ p.client_buf_curr_len + length bytes
        → o ≡ none
        → Filled p' (content ++ bytes)
        → Collects v ((content ++ bytes) ++ more) p' (rest p'))
    → Collects
        (elim o [ none ↦ v | some ret ↦ some ret ])
        (content ++ (elim o [ none ↦ bytes ++ more | some ret ↦ [] ]))
        p
        (elim s [ stop result ↦ result | go p' ↦ rest p' ])
next-Collects (some ret) s v content bytes more p rest (p', e, same, good) later =
    rw (e, append-nil content) (p', refl, same, good)
next-Collects none s v content bytes more p rest (p', e, same, len, f) later =
    rw (e, sym (append_assoc content bytes more))
      (Collects-same v _ p p' (rest p') same (later p' e len refl f))

pub recv_loop-Collects :
    (rs : List Round) (p : ProxyInfo) (content : List ℕ)
    → Filled p content
    → obeys rs p ≡ true
    → 2 * (p.client_buf_curr_len + length (incoming rs) + realloc_limit) < 2 ^ 31
    → Collects (verdict rs) (content ++ incoming rs) p (recv_loop rs p)
unfolding recv_loop obeys
recv_loop-Collects [] p content f ok small = refl
recv_loop-Collects (r ∷ rs) p content f ok small =
    let fits = leb→le _ _ (and_left _ _ ok) in
    let later_ok = and_right (leb (length (arrived r)) (asked p)) _ ok in
    next-Collects (ending r) (one_round r p) (verdict rs) content (arrived r) (incoming rs) p
      (recv_loop rs) (one_round-Stepped r p content f fits (omega arith))
      (λ p' e len goes_on f'.
        let all : incoming (r ∷ rs) ≡ arrived r ++ incoming rs = rw (incoming, goes_on) refl in
        let sum = ap length all ∙ length-append (arrived r) (incoming rs) in
        recv_loop-Collects rs p' (content ++ arrived r) f'
          (subst
            (λ (s : Step).
              (elim s as (λ _. Bool) [ stop result ↦ true | go q ↦ obeys rs q ]) ≡ true)
            e later_ok)
          (omega (arith, len, sum, small)))

-- The same of recv_client_data, which returns the record.
abbrev pub CollectsFor :
    Option ℤ → (content : List ℕ) → ProxyInfo → Run (ℤ × Option ProxyInfo) → Type 0
CollectsFor none content p r = r ≡ running
CollectsFor (some ret) content p r =
    (p' : ProxyInfo) × (r ≡ done (ret, some p'))
    × SameRequests p p'
    × (is_neg ret ≡ false → Filled p' content × (is_some p'.client_buf ≡ true))

-- As long as recv stores no more than it is asked for and what comes in stays below 2^30 less
-- realloc_limit bytes, recv_client_data never leaves its block, uses no NULL and overflows no `int`. It waits
-- until realloc fails, recv fails but by EINTR, or recv returns 0; then it returns 1 for EAGAIN, 0 for 0
-- and -1 else, has not touched the requests, and, unless the result is -1, has appended to the
-- buffer in order all that came in.
pub recv_client_data-Appends :
    (rs : List Round) (p : ProxyInfo) (content : List ℕ)
    → Filled p content
    → obeys rs p ≡ true
    → 2 * (p.client_buf_curr_len + length (incoming rs) + realloc_limit) < 2 ^ 31
    → CollectsFor (verdict rs) (content ++ incoming rs) p (recv_client_data rs (some p))
unfolding recv_client_data
recv_client_data-Appends rs p content f ok small =
    returned (verdict rs) (recv_loop rs p) (recv_loop-Collects rs p content f ok small)
  where
    returned :
        (v : Option ℤ) (r : Run (ℤ × ProxyInfo))
        → Collects v (content ++ incoming rs) p r
        → CollectsFor v (content ++ incoming rs) p (elim r as (λ _. Run (ℤ × Option ProxyInfo)) [
          | done (ret, p') ↦ done (ret, some p')
          | running ↦ running
          | fault ↦ fault
        ])
    returned none r e = rw e refl
    returned (some ret) r (p', e, same, good) = (p', rw e refl, same, good)
