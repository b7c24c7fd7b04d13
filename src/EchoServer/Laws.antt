-- ===== src/EchoServer/Laws.antt =====
-- What the clients get back.
use tpt.Common.{
  ℕ, ◌≡◌, refl, ap, ◌∙◌, Bool, true, false, not, ◌&&◌, ◌||◌, List, [], ◌∷◌, ◌++◌, length, take,
  drop, ℤ, pos, is_neg, int_eq, int_eq_iff, leb, ◌==◌, if◌then◌else◌, Bool-cases, inl, inr, arith,
  and_left, and_right, replicate,
}
use tpt.EchoServer.{
  max_length, says_bye, fails, got, Round, Handled, over, answer, handler_loop, handler, Client,
  Server, ends, accept_loop, Calls, main, Main, waiting, returned, fault,
}

-- A message of three bytes or more, all of which send takes; or the end of the stream, or an error.
abbrev pub plain : Round → Bool
plain (fails, send) = true
plain (got bytes, send) =
    (length bytes == 0) || (leb 3 (length bytes) && int_eq send (pos (length bytes)))

-- The round ends the conversation: an error, the end of the stream, or a message that begins with `bye`.
abbrev pub hangs_up : Round → Bool
hangs_up (fails, send) = true
hangs_up (got bytes, send) = (length bytes == 0) || says_bye bytes

abbrev pub message : Round → List ℕ
message (fails, send) = []
message (got bytes, send) = bytes

-- The messages before that round, one behind the other, and whether there is such a round.
abbrev pub conversation : List Round → Handled
conversation [] = record { echoed = []; ended = false }
conversation (r ∷ rs) =
    let rest = conversation rs in
    if hangs_up r then over else record rest { echoed = message r ++ rest.echoed }

abbrev pub all_plain : List Round → Bool
all_plain [] = true
all_plain (r ∷ rs) = plain r && all_plain rs

take-received : (bytes rest : List ℕ) → take (length bytes) (bytes ++ rest) ≡ bytes
take-received [] rest = refl
take-received (b ∷ bytes) rest = ap (λ (l : List ℕ). b ∷ l) (take-received bytes rest)

take-length : (bytes : List ℕ) → take (length bytes) bytes ≡ bytes
take-length [] = refl
take-length (b ∷ bytes) = ap (λ (l : List ℕ). b ∷ l) (take-length bytes)

-- What an earlier message has left in the buffer is not looked at.
says_bye-received :
    (bytes rest : List ℕ) → leb 3 (length bytes) ≡ true → says_bye (bytes ++ rest) ≡ says_bye bytes
says_bye-received [] rest h = absurd (ground arith)
says_bye-received (a ∷ []) rest h = absurd (ground arith)
says_bye-received (a ∷ b ∷ []) rest h = absurd (ground arith)
says_bye-received (a ∷ b ∷ c ∷ bytes) rest h = refl

answer-plain :
    (bytes rest : List ℕ) (send : ℤ) (later : Handled)
    → leb 3 (length bytes) ≡ true
    → send ≡ pos (length bytes)
    → answer bytes (bytes ++ rest) send later ≡ (
        if (length bytes == 0) || says_bye bytes
        then over
        else record later { echoed = bytes ++ later.echoed })
unfolding answer
answer-plain bytes rest send later long whole =
    let some_bytes : (length bytes == 0) ≡ false = ground arith in
    rw
      (
        whole,
        some_bytes,
        says_bye-received bytes rest long,
        take-received bytes rest,
        take-length bytes,
      )
      refl

answer-none :
    (bytes buf : List ℕ) (send : ℤ) (later : Handled)
    → (length bytes == 0) ≡ true
    → answer bytes buf send later ≡ over
unfolding answer
answer-none bytes buf send later h = rw h refl

handler_loop-conversation :
    (rs : List Round) (buf : List ℕ) → all_plain rs ≡ true → handler_loop rs buf ≡ conversation rs
unfolding handler_loop
handler_loop-conversation [] buf h = refl
handler_loop-conversation ((fails, send) ∷ rs) buf h = refl
handler_loop-conversation ((got bytes, send) ∷ rs) buf h =
    let rest = drop (length bytes) buf in
    let later =
      handler_loop-conversation rs (bytes ++ rest) (and_right (plain (got bytes, send)) _ h) in
    elim (Bool-cases (length bytes == 0)) [
      | inl none_at_all ↦
          rw
            (
              none_at_all,
              answer-none bytes (bytes ++ rest) send (handler_loop rs (bytes ++ rest)) none_at_all,
            )
            refl
      | inr some_bytes ↦
          let long : leb 3 (length bytes) ≡ true = ground arith in
          let whole : send ≡ pos (length bytes) =
            (int_eq_iff send (pos (length bytes))).0 (ground arith) in
          answer-plain bytes rest send (handler_loop rs (bytes ++ rest)) long whole
          ∙ (rw later refl)
    ]

-- What the server makes of a client: it gives it a thread, or goes on without one, or ends.
pub data Fate : Type 0 where
  served : Fate
  dropped : Fate
  ends_in : Main → Fate

abbrev pub fate : Client → Fate
fate c =
    if is_neg c.accept || not (int_eq c.pktinfo (pos 0))
    then ends_in returned
    else if c.memory
    then (if int_eq c.pthread (pos 0) then served else dropped)
    else ends_in fault

-- What the clients say that have a thread, up to the first at which the server ends, and how it ends.
abbrev pub conversations : List Client → Server
conversations [] = ends waiting
conversations (c ∷ cs) =
    let rest = conversations cs in
    elim (fate c) [
      | served ↦ record rest { threads = conversation c.rounds ∷ rest.threads }
      | dropped ↦ rest
      | ends_in m ↦ ends m
    ]

abbrev pub plain_clients : List Client → Bool
plain_clients [] = true
plain_clients (c ∷ cs) = all_plain c.rounds && plain_clients cs

abbrev pub listens : Calls → Bool
listens c = not (is_neg c.socket) && (c.aton && (not (is_neg c.bind) && not (is_neg c.listen)))

accept_loop-conversations :
    (cs : List Client) → plain_clients cs ≡ true → accept_loop cs ≡ conversations cs
unfolding accept_loop handler
accept_loop-conversations [] h = refl
accept_loop-conversations (c ∷ cs) h =
    let later = accept_loop-conversations cs (and_right (all_plain c.rounds) _ h) in
    let first = handler_loop-conversation c.rounds (replicate max_length 0) (and_left _ _ h) in
    rw (accept_loop, later, first) (ground arith)

-- When the server listens and every message has three bytes or more and is taken by send as a whole: each client
-- whose accept, getsockopt, calloc and pthread_create succeed, up to the first for which one of the first three fails, gets
-- back in order all that it sends before its stream ends or fails or it begins a message with `bye` in any case, and
-- its thread ends exactly then, as long as the process lasts. A client whose pthread_create fails gets nothing. At the
-- first client for which accept or getsockopt fails the server returns, and at one for which calloc fails it writes
-- through NULL; it serves none behind.
pub main-conversations :
    (c : Calls) (cs : List Client)
    → listens c ≡ true
    → plain_clients cs ≡ true
    → main c cs ≡ conversations cs
unfolding main
main-conversations c cs fine plain =
    let made : is_neg c.socket ≡ false = ground arith in
    let address : c.aton ≡ true = ground arith in
    let bound : is_neg c.bind ≡ false = ground arith in
    let listening : is_neg c.listen ≡ false = ground arith in
    rw (made, address, bound, listening) (accept_loop-conversations cs plain)
