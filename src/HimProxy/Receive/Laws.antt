-- ===== src/HimProxy/Receive/Laws.antt =====
-- recv_client_data collects what comes in, in a block that always has room for more.
use tpt.Common.{and_left, and_right, leb→le, take}
use tpt.Common.{
  ℕ, ◌+◌, ◌-◌, ◌*◌, ◌^◌, ◌≤◌, ◌<◌, ◌≡◌, refl, sym, ap, subst, ◌∙◌, ◌⊎◌, inl, inr, Bool, true, false,
  ◌&&◌, Option, none, some, List, [], ◌∷◌, ◌++◌, length, length-append, arith, ℤ, pos, minus, leb,
  ltb, ◌==◌, if◌then◌else◌, dec_lt, Bool-cases,
}
use mathlib.Core.List.{append-nil, append_assoc}
use tpt.HimProxy.{Run, done, running, fault}
use tpt.HimProxy.Receive.{
  alloc_size, realloc_threshold, ClientInfo, Recv, interrupted, again, broken, closed, got, stored,
  grow_if_full, received, recv_loop, recv_client_data,
}

-- The block holds `content` and has more room than realloc_threshold.
pub record Buffered (c : ClientInfo) (content : List ℕ) : Type 0 where
  pub block : c.cbuf ≡ some (content, c.cbuf_size)
  pub filled : length content ≡ c.cbuf_len
  pub room : c.cbuf_len + realloc_threshold < c.cbuf_size

-- recv stores at least one byte and no more than it is asked for.
unfoldable pub obeys : List Recv → ClientInfo → Bool
unfolding received
obeys [] c = true
obeys (interrupted ∷ rs) c = obeys rs c
obeys (again ∷ rs) c = true
obeys (broken ∷ rs) c = true
obeys (closed ∷ rs) c = true
obeys (got bytes grown ∷ rs) c =
    let rest : Bool = elim (received bytes grown c) [ none ↦ true | some c' ↦ obeys rs c' ] in
    ltb 0 (length bytes) && (leb (length bytes) (c.cbuf_size - c.cbuf_len) && rest)

-- Every realloc succeeds.
abbrev pub granted : List Recv → Bool
granted [] = true
granted (got bytes grown ∷ rs) = grown && granted rs
granted (_ ∷ rs) = granted rs

-- What is stored until recv fails or returns 0, EINTR aside.
abbrev pub incoming : List Recv → List ℕ
incoming [] = []
incoming (interrupted ∷ rs) = incoming rs
incoming (got bytes grown ∷ rs) = bytes ++ incoming rs
incoming (_ ∷ rs) = []

-- What that failure, or that 0, makes the result.
abbrev pub verdict : List Recv → Option ℤ
verdict [] = none
verdict (interrupted ∷ rs) = verdict rs
verdict (again ∷ rs) = some (pos 0)
verdict (broken ∷ rs) = some (minus 3)
verdict (closed ∷ rs) = some (pos 0)
verdict (got bytes grown ∷ rs) = verdict rs

take-length : (xs : List ℕ) → take (length xs) xs ≡ xs
take-length [] = refl
take-length (x ∷ xs) = ap (λ (l : List ℕ). x ∷ l) (take-length xs)

stored-end :
    (content bytes : List ℕ) (room : ℕ)
    → length content + length bytes ≤ room
    → stored (some (content, room)) (length content) bytes ≡ some (content ++ bytes, room)
unfolding stored
stored-end content bytes room fits =
    let here : leb (length content) (length content) ≡ true = ground arith in
    let inside : leb (length content + length bytes) room ≡ true = ground arith in
    rw (here, inside, take-length content) refl

stored-Buffered :
    (bytes : List ℕ) (c : ClientInfo) (content : List ℕ)
    → Buffered c content
    → length bytes ≤ c.cbuf_size - c.cbuf_len
    → stored c.cbuf c.cbuf_len bytes ≡ some (content ++ bytes, c.cbuf_size)
stored-Buffered bytes c content b fits =
    ap (λ (k : Option (List ℕ × ℕ)). stored k c.cbuf_len bytes) b.block
    ∙ ap (λ (n : ℕ). stored (some (content, c.cbuf_size)) n bytes) (sym b.filled)
    ∙ stored-end content bytes c.cbuf_size (omega (arith, b.filled, b.room))

grow_if_full-Buffered :
    (len size : ℕ) (content : List ℕ)
    → length content ≡ len
    → len ≤ size
    → realloc_threshold < size
    → 2 * (len + realloc_threshold) < 2 ^ 31
    → (c : ClientInfo) × (grow_if_full true len size (some (content, size)) ≡ some c)
      × (c.cbuf_len ≡ len)
      × Buffered c content
unfolding grow_if_full
grow_if_full-Buffered len size content filled fits some_room small =
    elim (dec_lt realloc_threshold (size - len)) [
      | yes wide ↦
          let stays : leb (size - len) realloc_threshold ≡ false = ground arith in
          (
            record { cbuf = some (content, size); cbuf_size = size; cbuf_len = len },
            rw stays refl,
            refl,
            record { block = refl; filled = filled; room = omega arith },
          )
      | no narrow ↦
          let grows : leb (size - len) realloc_threshold ≡ true = ground arith in
          let in_int : ltb (size * 2) (2 ^ 31) ≡ true = ground arith in
          (
            record { cbuf = some (content, size * 2); cbuf_size = size * 2; cbuf_len = len },
            rw (grows, in_int) refl,
            refl,
            record { block = refl; filled = filled; room = omega arith },
          )
    ]

received-Buffered :
    (bytes : List ℕ) (c : ClientInfo) (content : List ℕ)
    → Buffered c content
    → length bytes ≤ c.cbuf_size - c.cbuf_len
    → 2 * (c.cbuf_len + length bytes + realloc_threshold) < 2 ^ 31
    → (c' : ClientInfo) × (received bytes true c ≡ some c')
      × (c'.cbuf_len ≡ c.cbuf_len + length bytes)
      × Buffered c' (content ++ bytes)
unfolding received
received-Buffered bytes c content b fits small =
    let (c', e, len, b') =
      grow_if_full-Buffered (c.cbuf_len + length bytes) c.cbuf_size (content ++ bytes)
        (omega (arith, length-append content bytes, b.filled)) (omega (arith, b.room))
        (omega (arith, b.room)) small in
    (
      c',
      ap (grow_if_full true (c.cbuf_len + length bytes) c.cbuf_size)
            (stored-Buffered bytes c content b fits)
          ∙ e,
      len,
      b',
    )

-- A run that waits as long as nothing ends it, and else returns the verdict with the bytes in the block.
abbrev pub Collects : Option ℤ → (content : List ℕ) → Run (ℤ × ClientInfo) → Type 0
Collects none content r = r ≡ running
Collects (some ret) content r = (c : ClientInfo) × (r ≡ done (ret, c)) × Buffered c content

recv_loop-Collects :
    (rs : List Recv) (c : ClientInfo) (content : List ℕ)
    → Buffered c content
    → granted rs ≡ true
    → obeys rs c ≡ true
    → 2 * (c.cbuf_len + length (incoming rs) + realloc_threshold) < 2 ^ 31
    → Collects (verdict rs) (content ++ incoming rs) (recv_loop rs c)
unfolding recv_loop obeys
recv_loop-Collects [] c content b all obeyed small = refl
recv_loop-Collects (interrupted ∷ rs) c content b all obeyed small =
    recv_loop-Collects rs c content b all obeyed small
recv_loop-Collects (again ∷ rs) c content b all obeyed small = (c, refl, rw (append-nil content) b)
recv_loop-Collects (broken ∷ rs) c content b all obeyed small = (c, refl, rw (append-nil content) b)
recv_loop-Collects (closed ∷ rs) c content b all obeyed small = (c, refl, rw (append-nil content) b)
recv_loop-Collects (got bytes false ∷ rs) c content b all obeyed small = absurd (ground arith)
recv_loop-Collects (got bytes true ∷ rs) c content b all obeyed small =
    let fits = leb→le _ _ (and_left _ _ (and_right (ltb 0 (length bytes)) _ obeyed)) in
    let sum = length-append bytes (incoming rs) in
    let (c', e, len, b') = received-Buffered bytes c content b fits (omega arith) in
    let later : obeys rs c' ≡ true =
      subst
        (λ (o : Option ClientInfo).
          (elim o as (λ _. Bool) [ none ↦ true | some d ↦ obeys rs d ]) ≡ true)
        e
        (and_right (leb (length bytes) (c.cbuf_size - c.cbuf_len)) _
          (and_right (ltb 0 (length bytes)) _ obeyed)) in
    let done_rest =
      subst (λ (l : List ℕ). Collects (verdict rs) l (recv_loop rs c'))
        (append_assoc content bytes (incoming rs))
        (recv_loop-Collects rs c' (content ++ bytes) b' all later (omega (arith, len))) in
    subst
      (λ (o : Option ClientInfo).
        Collects (verdict rs) (content ++ (bytes ++ incoming rs))
          (elim o as (λ _. Run (ℤ × ClientInfo)) [ none ↦ fault | some d ↦ recv_loop rs d ]))
      (sym e) done_rest

-- The client has a block with `content`, or none so far.
abbrev pub Started : ClientInfo → List ℕ → Type 0
Started c content = Buffered c content ⊎ ((c.cbuf_size ≡ 0) × (c.cbuf_len ≡ 0) × (content ≡ []))

-- The same of recv_client_data, which returns the client.
abbrev pub CollectsFor : Option ℤ → (content : List ℕ) → Run (ℤ × Option ClientInfo) → Type 0
CollectsFor none content r = r ≡ running
CollectsFor (some ret) content r = (c : ClientInfo) × (r ≡ done (ret, some c)) × Buffered c content

Collects-CollectsFor :
    (v : Option ℤ) (content : List ℕ) (r : Run (ℤ × ClientInfo))
    → Collects v content r
    → CollectsFor v content (elim r as (λ _. Run (ℤ × Option ClientInfo)) [
      | done (ret, c) ↦ done (ret, some c)
      | running ↦ running
      | fault ↦ fault
    ])
Collects-CollectsFor none content r h = rw h refl
Collects-CollectsFor (some ret) content r (c, e, b) = (c, rw e refl, b)

-- The client as the loop of recv_client_data gets it.
abbrev pub begun : ClientInfo → ClientInfo
begun c =
    if c.cbuf_size == 0
    then record { cbuf = some ([], alloc_size); cbuf_size = alloc_size; cbuf_len = c.cbuf_len }
    else c

-- Which loop runs, by the test on the size.
begun_run :
    (rs : List Recv) (c : ClientInfo)
    → recv_client_data true rs (some c)
      ≡ (elim (recv_loop rs (begun c)) as (λ _. Run (ℤ × Option ClientInfo)) [
        | done (ret, c') ↦ done (ret, some c')
        | running ↦ running
        | fault ↦ fault
      ])
unfolding recv_client_data
begun_run rs c = elim (Bool-cases (c.cbuf_size == 0)) [
  | inl e ↦ rw (e, recv_client_data) refl
  | inr e ↦ rw (e, recv_client_data) refl
]

begun-Buffered :
    (c : ClientInfo) (content : List ℕ)
    → Started c content
    → Buffered (begun c) content × ((begun c).cbuf_len ≡ c.cbuf_len)
begun-Buffered c content (inl b) =
    let sized : (c.cbuf_size == 0) ≡ false = not_zero c.cbuf_size (omega (arith, b.room)) in
    rw sized (b, refl)
  where
    not_zero : (n : ℕ) → 0 < n → (n == 0) ≡ false
    not_zero n h = ground arith
begun-Buffered c content (inr (no_block, empty, nothing)) =
    let unsized : (c.cbuf_size == 0) ≡ true = rw no_block refl in
    rw (unsized, nothing) (record { block = refl; filled = sym empty; room = omega arith }, refl)

-- With memory, a recv that stores at least one byte and no more than it is asked for, and fewer than
-- 2 ^ 30 - 128 bytes in all, recv_client_data never writes outside its block. It runs until recv fails, EINTR
-- aside, or returns 0, and then returns 0 for EAGAIN and for 0 and -3 for an error; what has come in stands in the block behind
-- what was there, and the block has room for more than 128 further bytes.
pub recv_client_data-CollectsFor :
    (rs : List Recv) (c : ClientInfo) (content : List ℕ)
    → Started c content
    → granted rs ≡ true
    → obeys rs (begun c) ≡ true
    → 2 * (c.cbuf_len + length (incoming rs) + realloc_threshold) < 2 ^ 31
    → CollectsFor (verdict rs) (content ++ incoming rs) (recv_client_data true rs (some c))
recv_client_data-CollectsFor rs c content started all obeyed small =
    let (b, len) = begun-Buffered c content started in
    rw (begun_run rs c) (
      Collects-CollectsFor (verdict rs) (content ++ incoming rs) (recv_loop rs (begun c))
        (recv_loop-Collects rs (begun c) content b all obeyed (omega (arith, len))))
