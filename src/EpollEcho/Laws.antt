-- ===== src/EpollEcho/Laws.antt =====
-- What the echo server writes, and whether it goes on listening.
use tpt.Common.{
  ℕ, ◌≡◌, refl, sym, ap, ◌∙◌, inl, inr, Bool, true, false, not, ◌&&◌, ◌||◌, Option, none, some,
  List, [], ◌∷◌, ◌++◌, take, minus, int_eq, ◌==◌, if◌then◌else◌, is_some, arith, Bool-cases,
  Option-cases, and_left, and_right,
}
use mathlib.Core.List.{append-nil, append_assoc}
use tpt.EpollEcho.{
  Outcome, ok, waits, aborted, Read, again, broken, end_of_file, got, read_loop, Accept, failed,
  accepted, accept_loop, Event, Server, closed_fd, handle_event, event_loop,
}

-- What write takes of the bytes that are read, up to the end of the loop.
abbrev pub taken : List Read → List ℕ
taken (got bytes (some n) ∷ rs) = take n bytes ++ taken rs
taken _ = []

-- How the loop over the reads ends: with the flag, or `none` if it waits or has aborted.
abbrev pub finished : List Read → Option Bool
finished [] = none
finished (again ∷ rs) = some false
finished (broken ∷ rs) = some true
finished (end_of_file ∷ rs) = some true
finished (got bytes none ∷ rs) = none
finished (got bytes (some n) ∷ rs) = finished rs

some-injective : (a b : Bool) → some a ≡ some b → a ≡ b
some-injective a b e = ground arith

read_loop-taken :
    (rs : List Read) (f : Bool) → finished rs ≡ some f → read_loop rs ≡ ok (f, taken rs)
unfolding read_loop
read_loop-taken [] f e = absurd (ground arith)
read_loop-taken (again ∷ rs) f e = ap (λ (b : Bool). ok (b, [])) (some-injective false f e)
read_loop-taken (broken ∷ rs) f e = ap (λ (b : Bool). ok (b, [])) (some-injective true f e)
read_loop-taken (end_of_file ∷ rs) f e = ap (λ (b : Bool). ok (b, [])) (some-injective true f e)
read_loop-taken (got bytes none ∷ rs) f e = absurd (ground arith)
read_loop-taken (got bytes (some n) ∷ rs) f e = rw (read_loop-taken rs f e) refl

-- Every call of the loop over accept succeeds up to the end that accept gives it.
abbrev pub all_watched : List Accept → Bool
all_watched [] = false
all_watched (failed ∷ rs) = true
all_watched (accepted fd non_blocking ctl ∷ rs) =
    not (int_eq non_blocking (minus 1)) && (not (int_eq ctl (minus 1)) && all_watched rs)

accept_loop-ok :
    (rs : List Accept) (fds : List ℕ)
    → all_watched rs ≡ true
    → (fds' : List ℕ) × (accept_loop rs fds ≡ ok fds')
unfolding accept_loop
accept_loop-ok [] fds h = absurd (ground arith)
accept_loop-ok (failed ∷ rs) fds h = (fds, refl)
accept_loop-ok (accepted fd non_blocking ctl ∷ rs) fds h =
    let set : int_eq non_blocking (minus 1) ≡ false = ground arith in
    let added : int_eq ctl (minus 1) ≡ false = ground arith in
    let (fds', e) = accept_loop-ok rs (fds ++ (fd ∷ [])) (ground arith) in (fds', rw (set, added) e)

-- The events that close their socket, and those of the others that are about the listening socket.
abbrev pub closes : Event → Bool
closes e = e.err || (e.hup || not e.input)

-- The loop behind the event ends.
abbrev pub settles : (sfd : ℕ) → Event → Bool
settles sfd e =
    if closes e
    then true
    else if sfd == e.fd
    then all_watched e.accepts
    else is_some (finished e.reads)

abbrev pub all_settle : (sfd : ℕ) → List Event → Bool
all_settle sfd [] = true
all_settle sfd (e ∷ es) = settles sfd e && all_settle sfd es

-- What is written for the event.
abbrev pub printed : (sfd : ℕ) → Event → List ℕ
printed sfd e = if closes e then [] else if sfd == e.fd then [] else taken e.reads

abbrev pub all_printed : (sfd : ℕ) → List Event → List ℕ
all_printed sfd [] = []
all_printed sfd (e ∷ es) = printed sfd e ++ all_printed sfd es

-- The listening socket is closed by one of the events.
abbrev pub deaf : (sfd : ℕ) → List Event → Bool
deaf sfd [] = false
deaf sfd (e ∷ es) = (closes e && (sfd == e.fd)) || deaf sfd es

closed_fd-keeps :
    (sfd fd : ℕ) (s : Server)
    → ((closed_fd sfd fd s).out ≡ s.out)
      × ((closed_fd sfd fd s).listening ≡ (s.listening && not (sfd == fd)))
unfolding closed_fd
closed_fd-keeps sfd fd s = elim (Bool-cases (sfd == fd)) [
  | inl same ↦ rw same (refl, ground arith)
  | inr other ↦ rw other (refl, ground arith)
]

-- The event leads to a server that has written this.
abbrev pub Handled : (out : List ℕ) → (deaf : Bool) → Server → Outcome Server → Type 0
Handled out deaf s r =
    (s' : Server) × (r ≡ ok s')
    × (s'.out ≡ s.out ++ out)
    × (s'.listening ≡ (s.listening && not deaf))

and_true : (b : Bool) → (b && true) ≡ b
and_true b = ground arith

and_not_or : (h a b : Bool) → ((h && not a) && not b) ≡ (h && not (a || b))
and_not_or h a b = ground arith

-- The branch that reads from a client.
read-Handled :
    (sfd : ℕ) (e : Event) (s : Server)
    → (sfd == e.fd) ≡ false
    → is_some (finished e.reads) ≡ true
    → Handled (taken e.reads) false s (elim (read_loop e.reads) as (λ _. Outcome Server) [
      | ok (f, out) ↦
          let s' : Server = record s { out = s.out ++ out } in
          ok (if f then closed_fd sfd e.fd s' else s')
      | waits ↦ waits
      | aborted ↦ aborted
    ])
read-Handled sfd e s other ends = elim (Option-cases (finished e.reads)) [
  | inr missing ↦ absurd (ground arith)
  | inl (f, at_end) ↦ rw (read_loop-taken e.reads f at_end) (by_flag f)
]
  where
    by_flag :
        (f : Bool)
        → Handled (taken e.reads) false s (
            ok (
              if f
              then closed_fd sfd e.fd (record s { out = s.out ++ taken e.reads })
              else record s { out = s.out ++ taken e.reads }))
    by_flag false =
        (record s { out = s.out ++ taken e.reads }, refl, refl, sym (and_true s.listening))
    by_flag true =
        let s' : Server = record s { out = s.out ++ taken e.reads } in
        let (out, listening) = closed_fd-keeps sfd e.fd s' in
        (
          closed_fd sfd e.fd s',
          refl,
          out,
          listening ∙ ap (λ (b : Bool). s.listening && not b) other,
        )

handle_event-Handled :
    (sfd : ℕ) (e : Event) (s : Server)
    → settles sfd e ≡ true
    → Handled (printed sfd e) (closes e && (sfd == e.fd)) s (handle_event sfd e s)
unfolding handle_event
handle_event-Handled sfd e s h = elim (Bool-cases (closes e)) [
  | inl bad ↦
      let (out, listening) = closed_fd-keeps sfd e.fd s in
      rw bad (closed_fd sfd e.fd s, refl, out ∙ sym (append-nil s.out), listening)
  | inr fine ↦ elim (Bool-cases (sfd == e.fd)) [
    | inl same ↦
        let all : settles sfd e ≡ all_watched e.accepts = rw (fine, same) refl in
        let (fds, done) = accept_loop-ok e.accepts s.watched (sym all ∙ h) in
        rw (fine, same, done)
          (record s { watched = fds }, refl, sym (append-nil s.out), sym (and_true s.listening))
    | inr other ↦
        let ends : settles sfd e ≡ is_some (finished e.reads) = rw (fine, other) refl in
        rw (fine, other) (read-Handled sfd e s other (sym ends ∙ h))
  ]
]

-- When every loop comes to its end and no call fails for which the server aborts: a round of events has
-- appended to the standard output, in order, what write took of the bytes read from clients; and it still
-- listens exactly if it did so before and no event closed the listening socket.
pub event_loop-Handled :
    (sfd : ℕ) (es : List Event) (s : Server)
    → all_settle sfd es ≡ true
    → Handled (all_printed sfd es) (deaf sfd es) s (event_loop sfd es s)
unfolding event_loop
event_loop-Handled sfd [] s h = (s, refl, sym (append-nil s.out), sym (and_true s.listening))
event_loop-Handled sfd (e ∷ es) s h =
    let (s1, e1, out1, listening1) = handle_event-Handled sfd e s (and_left _ _ h) in
    let (s2, e2, out2, listening2) = event_loop-Handled sfd es s1 (and_right (settles sfd e) _ h) in
    (
      s2,
      rw (event_loop, e1) e2,
      out2
          ∙ ap (λ (l : List ℕ). l ++ all_printed sfd es) out1
          ∙ append_assoc s.out (printed sfd e) (all_printed sfd es),
      listening2
          ∙ ap (λ (b : Bool). b && not (deaf sfd es)) listening1
          ∙ and_not_or s.listening (closes e && (sfd == e.fd)) (deaf sfd es),
    )
