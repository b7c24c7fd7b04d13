-- ===== src/SpliceProxy/Splice/Laws.antt =====
-- What comes from the server goes to the client whole and in order, by way of the pipe.
use tpt.Common.{
  take-all, drop-length, ℕ, zero, suc, ◌≤◌, ◌≡◌, refl, sym, ap, ◌∙◌, Bool, true, false, not, ◌&&◌,
  Option, none, some, List, [], ◌∷◌, ◌++◌, length, take, drop, ℤ, pos, minus, is_neg, int_eq, leb,
  ltb, arith, Bool-cases, if◌then◌else◌, inl, inr, and_left, and_right, leb→le,
}
use mathlib.Core.List.{append-nil, append_assoc}
use tpt.SpliceProxy.{after_poll}
use tpt.SpliceProxy.Splice.{
  Flow, Spliced, Out, interrupted, broken, timed_out, not_ready, splice_failed, moves, moved,
  splice_with_poll, In, again, failed, ended, into, splice_loop, make_splice,
}

-- All bytes on their way, in the order in which the client gets them.
abbrev pub on_the_way : Flow → List ℕ
on_the_way f = f.out ++ f.pipe

-- The first `length (take n xs)` elements are `take n xs`.
take-drop-length :
    (n m : ℕ) (xs : List ℕ) → take n (take m xs) ++ drop (length (take n (take m xs))) xs ≡ xs
take-drop-length zero m xs = refl
take-drop-length (suc n) zero xs = refl
take-drop-length (suc n) (suc m) [] = refl
take-drop-length (suc n) (suc m) (x ∷ xs) = ap (λ (l : List ℕ). x ∷ l) (take-drop-length n m xs)

splice_with_poll-on_the_way :
    (len : ℕ) (os : List Out) (f : Flow) → on_the_way (splice_with_poll len os f).1 ≡ on_the_way f
unfolding splice_with_poll
splice_with_poll-on_the_way len [] f = refl
splice_with_poll-on_the_way len (interrupted ∷ os) f = splice_with_poll-on_the_way len os f
splice_with_poll-on_the_way len (broken ∷ os) f = refl
splice_with_poll-on_the_way len (timed_out ∷ os) f = refl
splice_with_poll-on_the_way len (not_ready ∷ os) f = splice_with_poll-on_the_way len os f
splice_with_poll-on_the_way len (splice_failed ∷ os) f = refl
splice_with_poll-on_the_way len (moves room ∷ os) f =
    append_assoc f.out (moved len room f) (drop (length (moved len room f)) f.pipe)
    ∙ ap (λ (l : List ℕ). f.out ++ l) (take-drop-length room len f.pipe)

-- What is read until the splice from the server fails or returns 0.
abbrev pub incoming : List In → List ℕ
incoming (into bytes outs ∷ is) = bytes ++ incoming is
incoming _ = []

-- A result with which the caller goes on: neither negative nor 0.
abbrev pub goes_on : Option ℤ → Bool
goes_on none = false
goes_on (some ret) = not (is_neg ret) && not (int_eq ret (pos 0))

-- What the run reads from the server: up to the splice behind which the client's side does not let it go on.
abbrev pub read_in : (len : ℕ) → List In → Flow → List ℕ
read_in len (into bytes outs ∷ is) f =
    let r : Spliced = splice_with_poll len outs (record f { pipe = f.pipe ++ bytes }) in
    let rest = read_in len is r.1 in bytes ++ (if goes_on r.0 then rest else [])
read_in len _ f = []

-- The bytes behind the run are those before it with those that it has read, which are the first of those that come,
-- and all of them if the caller goes on.
abbrev pub Conserves : (len : ℕ) → List In → Flow → Spliced → Type 0
Conserves len is f r =
    (on_the_way r.1 ≡ on_the_way f ++ read_in len is f)
    × ((rest : List ℕ) × (read_in len is f ++ rest ≡ incoming is))
    × (goes_on r.0 ≡ true → read_in len is f ≡ incoming is)

module _ (len : ℕ) (is : List In) (bytes : List ℕ) (f f' : Flow) where
  Ends : (now : List ℕ) → Spliced → Type 0
  Ends now r =
      (on_the_way r.1 ≡ on_the_way f ++ (bytes ++ now))
      × ((rest : List ℕ) × ((bytes ++ now) ++ rest ≡ bytes ++ incoming is))
      × (goes_on r.0 ≡ true → bytes ++ now ≡ bytes ++ incoming is)

  ends_here :
      (ret : Option ℤ)
      → on_the_way f' ≡ on_the_way f ++ bytes
      → goes_on ret ≡ false
      → Ends [] (ret, f')
  unfolding Ends
  ends_here ret e stops = (
    e ∙ ap (λ (l : List ℕ). on_the_way f ++ l) (sym (append-nil bytes)),
    (incoming is, ap (λ (l : List ℕ). l ++ incoming is) (append-nil bytes)),
    λ on. absurd (ground arith),
  )

  after_poll-Ends :
      (ret : Option ℤ) (next : Spliced)
      → on_the_way f' ≡ on_the_way f ++ bytes
      → Conserves len is f' next
      → Ends (if goes_on ret then read_in len is f' else []) (after_poll ret f' next)
  unfolding after_poll Ends
  after_poll-Ends none next e c = ends_here none e refl
  after_poll-Ends (some ret) next e (kept, (rest, first), all) = elim (Bool-cases (is_neg ret)) [
    | inl bad ↦ rw bad (ends_here (some (minus 1)) e refl)
    | inr good ↦ elim (Bool-cases (int_eq ret (pos 0))) [
      | inl stop ↦ rw (good, stop) (ends_here (some (pos 0)) e refl)
      | inr more ↦
          rw (good, more)
            (
              kept
                  ∙ ap (λ (l : List ℕ). l ++ read_in len is f') e
                  ∙ append_assoc (on_the_way f) bytes (read_in len is f'),
              (
                rest,
                append_assoc bytes (read_in len is f') rest ∙ ap (λ (l : List ℕ). bytes ++ l) first,
              ),
              λ on. ap (λ (l : List ℕ). bytes ++ l) (all on),
            )
    ]
  ]

splice_loop-Conserves :
    (len : ℕ) (is : List In) (f : Flow) → Conserves len is f (splice_loop len is f)
unfolding splice_loop Ends
splice_loop-Conserves len [] f = (sym (append-nil _), ([], refl), λ on. refl)
splice_loop-Conserves len (again ∷ is) f = (sym (append-nil _), ([], refl), λ on. refl)
splice_loop-Conserves len (failed ∷ is) f = (sym (append-nil _), ([], refl), λ on. refl)
splice_loop-Conserves len (ended ∷ is) f = (sym (append-nil _), ([], refl), λ on. refl)
splice_loop-Conserves len (into bytes outs ∷ is) f =
    let filled : Flow = record f { pipe = f.pipe ++ bytes } in
    let f' : Flow = (splice_with_poll len outs filled).1 in
    after_poll-Ends len is bytes f f' (splice_with_poll len outs filled).0 (splice_loop len is f')
      (splice_with_poll-on_the_way len outs filled ∙ sym (append_assoc f.out f.pipe bytes))
      (splice_loop-Conserves len is f')

-- Whatever splice and poll answer, and wherever make_splice with a pipe stands or stops: what the client has got,
-- followed by what is in the pipe, is what the client had got and what was in the pipe, followed by all that the run has
-- read from the server; it has read the first of the bytes that the server sends, and all of them up to the
-- splice that fails or returns 0 if the result is neither negative nor 0.
pub make_splice-Conserves :
    (len : ℕ) (is : List In) (f : Flow) → Conserves len is f (make_splice true len is f)
unfolding make_splice
make_splice-Conserves len is f = splice_loop-Conserves len is f

-- The client's socket takes all of `bytes` at the first splice to it.
abbrev pub clears : List Out → (bytes : List ℕ) → Bool
clears (interrupted ∷ os) bytes = clears os bytes
clears (not_ready ∷ os) bytes = clears os bytes
clears (moves room ∷ os) bytes = leb (length bytes) room
clears _ bytes = false

-- Each splice from the server stores at least one byte and at most `len`, and the client takes them.
abbrev pub all_clear : (len : ℕ) → List In → Bool
all_clear len (into bytes outs ∷ is) =
    ltb 0 (length bytes) && (leb (length bytes) len && (clears outs bytes && all_clear len is))
all_clear len _ = true

-- What that end makes the result.
abbrev pub verdict : List In → Option ℤ
verdict [] = none
verdict (again ∷ is) = some (pos 1)
verdict (failed ∷ is) = some (minus 1)
verdict (ended ∷ is) = some (pos 0)
verdict (into bytes outs ∷ is) = verdict is

splice_with_poll-clears :
    (len : ℕ) (os : List Out) (bytes out : List ℕ)
    → length bytes ≤ len
    → clears os bytes ≡ true
    → splice_with_poll len os (record { pipe = bytes; out = out })
      ≡ (some (pos (length bytes)), record { pipe = []; out = out ++ bytes })
unfolding splice_with_poll
splice_with_poll-clears len [] bytes out fits c = absurd (ground arith)
splice_with_poll-clears len (interrupted ∷ os) bytes out fits c =
    splice_with_poll-clears len os bytes out fits c
splice_with_poll-clears len (broken ∷ os) bytes out fits c = absurd (ground arith)
splice_with_poll-clears len (timed_out ∷ os) bytes out fits c = absurd (ground arith)
splice_with_poll-clears len (not_ready ∷ os) bytes out fits c =
    splice_with_poll-clears len os bytes out fits c
splice_with_poll-clears len (splice_failed ∷ os) bytes out fits c = absurd (ground arith)
splice_with_poll-clears len (moves room ∷ os) bytes out fits c =
    let whole : take room (take len bytes) ≡ bytes =
      ap (take room) (take-all len bytes fits) ∙ take-all room bytes (leb→le _ _ c) in
    rw (whole, drop-length bytes) refl

splice_loop-clear :
    (len : ℕ) (is : List In) (out : List ℕ)
    → all_clear len is ≡ true
    → splice_loop len is (record { pipe = []; out = out })
      ≡ (verdict is, record { pipe = []; out = out ++ incoming is })
unfolding splice_loop after_poll
splice_loop-clear len [] out c = rw (append-nil out) refl
splice_loop-clear len (again ∷ is) out c = rw (append-nil out) refl
splice_loop-clear len (failed ∷ is) out c = rw (append-nil out) refl
splice_loop-clear len (ended ∷ is) out c = rw (append-nil out) refl
splice_loop-clear len (into bytes outs ∷ is) out c =
    let some_bytes : ltb 0 (length bytes) ≡ true = and_left _ _ c in
    let c1 = and_right (ltb 0 (length bytes)) _ c in
    let fits : leb (length bytes) len ≡ true = and_left _ _ c1 in
    let c2 = and_right (leb (length bytes) len) _ c1 in
    let taken : clears outs bytes ≡ true = and_left _ _ c2 in
    let more : int_eq (pos (length bytes)) (pos 0) ≡ false = ground arith in
    ap (λ (r : Spliced). after_poll r.0 r.1 (splice_loop len is r.1))
      (splice_with_poll-clears len outs bytes out (leb→le _ _ fits) taken)
    ∙ rw more (
        splice_loop-clear len is (out ++ bytes) (and_right (clears outs bytes) _ c2)
        ∙ ap (λ (l : List ℕ). (verdict is, record { pipe = []; out = l }))
            (append_assoc out bytes (incoming is)))

-- From an empty pipe, when the client takes what each splice from the server brings: once that splice
-- fails or returns 0, make_splice returns 1 for EAGAIN, -1 for another error and 0 for the end, the
-- client has got all that was read, and the pipe is empty.
pub make_splice-clear :
    (len : ℕ) (is : List In) (out : List ℕ)
    → all_clear len is ≡ true
    → make_splice true len is (record { pipe = []; out = out })
      ≡ (verdict is, record { pipe = []; out = out ++ incoming is })
unfolding make_splice
make_splice-clear len is out c = splice_loop-clear len is out c
