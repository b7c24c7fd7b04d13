-- ===== src/ProxyOld/Poller/Laws.antt =====
-- What the poller leaves of the clients behind a round of events, and what it takes to start and stop it.
use tpt.Common.{
  ℕ, ◌≡◌, refl, ap, ◌∙◌, ◌⊎◌, inl, inr, Bool, true, false, not, ◌&&◌, ◌||◌, List, [], ◌∷◌, ◌++◌, ℤ,
  pos, negsuc, minus, int_eq, ◌==◌, ==_iff, arith, Bool-cases,
}
use tpt.ProxyOld.Poller.{
  init_poller, destroy_poller, Clients, Event, without, handle_event, handle_epoll_events,
}

abbrev pub holds : ℕ → List ℕ → Bool
holds s [] = false
holds s (x ∷ xs) = (x == s) || holds s xs

-- An error or a hang-up is reported for the socket.
abbrev pub broken_in : ℕ → List Event → Bool
broken_in s [] = false
broken_in s (e ∷ es) = ((e.sock == s) && (e.err || e.hup)) || broken_in s es

-- Something else is, and the work queue takes it.
abbrev pub queued_in : ℕ → List Event → Bool
queued_in s [] = false
queued_in s (e ∷ es) =
    ((e.sock == s) && (not (e.err || e.hup) && int_eq e.added (pos 0))) || queued_in s es

holds-without : (s t : ℕ) (xs : List ℕ) → holds s (without t xs) ≡ (holds s xs && not (t == s))
holds-without s t [] = refl
holds-without s t (x ∷ xs) = elim (Bool-cases (x == t)) [
  | inl gone ↦ rw (gone, holds-without s t xs) (absorbed (holds s xs) ((==_iff x t).0 gone))
  | inr stays ↦ rw (stays, holds-without s t xs) (apart (holds s xs) stays)
]
  where
    absorbed : (h : Bool) → x ≡ t → (h && not (t == s)) ≡ (((x == s) || h) && not (t == s))
    absorbed h e = ground arith

    apart :
        (h : Bool)
        → (x == t) ≡ false
        → ((x == s) || (h && not (t == s))) ≡ (((x == s) || h) && not (t == s))
    apart h e = ground arith

holds-append : (s : ℕ) (xs ys : List ℕ) → holds s (xs ++ ys) ≡ (holds s xs || holds s ys)
holds-append s [] ys = refl
holds-append s (x ∷ xs) ys = rw (holds-append s xs ys) (or_assoc (x == s) (holds s xs) (holds s ys))
  where
    or_assoc : (a b c : Bool) → (a || (b || c)) ≡ ((a || b) || c)
    or_assoc a b c = ground arith

handle_event-holds :
    (e : Event) (c : Clients) (s : ℕ)
    → (holds s (handle_event e c).live
        ≡ (holds s c.live && not ((e.sock == s) && (e.err || e.hup))))
      × (holds s (handle_event e c).workq ≡ (
          holds s c.workq || ((e.sock == s) && (not (e.err || e.hup) && int_eq e.added (pos 0)))))
unfolding handle_event
handle_event-holds e c s = elim (Bool-cases (e.err || e.hup)) [
  | inl bad ↦ rw bad (holds-without s e.sock c.live ∙ ground arith, ground arith)
  | inr fine ↦ elim (Bool-cases (int_eq e.added (pos 0))) [
    | inl added ↦
        rw (fine, added) (ground arith, holds-append s c.workq (e.sock ∷ []) ∙ ground arith)
    | inr full ↦ rw (fine, full) (ground arith, ground arith)
  ]
]

-- Two Boolean steps of the loop.
and_not_or : (h a b : Bool) → ((h && not a) && not b) ≡ (h && not (a || b))
and_not_or h a b = ground arith

or_or : (h a b : Bool) → ((h || a) || b) ≡ (h || (a || b))
or_or h a b = ground arith

-- After the events: the result is 0; of the open clients those are gone for which an error or a hang-up was
-- reported, and no others; and the work queue has those that it had, whether or not they are
-- still open, with those that were reported otherwise and that it took.
pub handle_epoll_events-holds :
    (es : List Event) (c : Clients) (s : ℕ)
    → ((handle_epoll_events true es c).0 ≡ pos 0)
      × (holds s (handle_epoll_events true es c).1.live ≡ (holds s c.live && not (broken_in s es)))
      × (holds s (handle_epoll_events true es c).1.workq ≡ (holds s c.workq || queued_in s es))
unfolding handle_epoll_events
handle_epoll_events-holds [] c s = (refl, ground arith, ground arith)
handle_epoll_events-holds (e ∷ es) c s =
    let (ret, live, workq) = handle_epoll_events-holds es (handle_event e c) s in
    let (live1, workq1) = handle_event-holds e c s in
    (
      ret,
      live ∙ ap (λ (h : Bool). h && not (broken_in s es)) live1 ∙ and_not_or _ _ _,
      workq
          ∙ ap (λ (h : Bool). h || queued_in s es) workq1
          ∙ or_or (holds s c.workq)
              ((e.sock == s) && (not (e.err || e.hup) && int_eq e.added (pos 0))) (queued_in s es),
    )

-- init_poller returns 0 and then has the descriptor open and the array of events, and destroy_poller, when
-- the thread can be cancelled and joined, leaves nothing of them; or it returns -1 and has left nothing. When
-- pthread_create fails, init_poller returns 0 all the same, with no thread: the error number that
-- pthread_create returns is positive.
pub init_poller-all_or_nothing :
    (epoll : ℤ) (memory : Bool) (n : ℕ)
    → (((init_poller true epoll memory (pos n)).ret ≡ pos 0)
        × ((init_poller true epoll memory (pos n)).epoll_open ≡ true)
        × ((init_poller true epoll memory (pos n)).events ≡ true)
        × ((init_poller true epoll memory (pos n)).thread ≡ (n == 0))
        × (destroy_poller true (pos 0) (pos 0) (init_poller true epoll memory (pos n))
            ≡ record { ret = pos 0; epoll_open = false; events = false; thread = false }))
      ⊎ (init_poller true epoll memory (pos n)
          ≡ record { ret = minus 1; epoll_open = false; events = false; thread = false })
unfolding init_poller destroy_poller
init_poller-all_or_nothing (negsuc k) memory n = inr refl
init_poller-all_or_nothing (pos k) false n = inr refl
init_poller-all_or_nothing (pos k) true n = inl (refl, refl, refl, refl, refl)
