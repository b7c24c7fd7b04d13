-- ===== src/HimProxy/Events/Laws.antt =====
-- What the result of handle_epoll_events says of the events, and what the accept loop leaves open.
use tpt.Common.{
  ℕ, ◌≡◌, refl, ap, ◌∙◌, Bool, false, not, ◌||◌, Option, none, some, List, [], ◌∷◌, arith, ℤ, pos,
  minus, is_neg,
}
use tpt.HimProxy.{Run, done, running}
use tpt.HimProxy.Events.{
  PollSide, proxy_side, client_side, server_side, Bits, EpollEvent, Accept, interrupted, again,
  broken, accepted, also, accept_and_add_conn_to_poller, handle_proxy_listen_event,
  handle_client_event, handle_event, events_loop, handle_epoll_events,
}

-- The socket is in error, has hung up, has nothing to read, or reading it fails.
abbrev pub fails : EpollEvent → Bool
fails ev =
    ev.events.err || (ev.events.hup || (not (ev.events.input || ev.events.pri) || is_neg ev.inner))

-- What an event makes of the verdict `before` it.
abbrev pub counted : (before : Bool) → EpollEvent → Bool
counted before ev = elim ev.side [ server_side ↦ before | _ ↦ fails ev ]

-- Whether the last event that is not on the server side fails; `before` if there is none.
abbrev pub last_fails : (before : Bool) → List EpollEvent → Bool
last_fails before [] = before
last_fails before (ev ∷ evs) = last_fails (counted before ev) evs

module _ (ret : ℤ) (bits : Bits) (inner : ℤ) where
  handled : (side : PollSide) → EpollEvent
  handled side = record { side = side; events = bits; inner = inner }

  handle_event-side :
      (side : PollSide)
      → is_neg (handle_event ret (handled side)) ≡ counted (is_neg ret) (handled side)
  unfolding handled handle_event handle_proxy_listen_event handle_client_event
  handle_event-side proxy_side = ground arith
  handle_event-side client_side = ground arith
  handle_event-side server_side = refl

events_loop-last_fails :
    (ret : ℤ) (evs : List EpollEvent) → is_neg (events_loop ret evs) ≡ last_fails (is_neg ret) evs
unfolding events_loop handled
events_loop-last_fails ret [] = refl
events_loop-last_fails ret (ev ∷ evs) =
    events_loop-last_fails (handle_event ret ev) evs
    ∙ ap (λ (b : Bool). last_fails b evs) (handle_event-side ret ev.events ev.inner ev.side)

-- handle_epoll_events returns a negative result exactly if the last event of the proxy's or of a client's
-- socket fails; a failure before it leaves no trace in the result.
pub handle_epoll_events-last_fails :
    (evs : List EpollEvent) → is_neg (handle_epoll_events (some evs)) ≡ last_fails false evs
unfolding handle_epoll_events
handle_epoll_events-last_fails evs = events_loop-last_fails (pos 0) evs

-- The sockets accepted before accept4 fails other than by EINTR, and what that failure makes the result.
abbrev pub taken : List Accept → List ℕ
taken [] = []
taken (accepted sock ∷ rs) = sock ∷ taken rs
taken (interrupted ∷ rs) = taken rs
taken (_ ∷ rs) = []

abbrev pub ended : List Accept → Option ℤ
ended [] = none
ended (again ∷ rs) = some (pos 0)
ended (broken ∷ rs) = some (minus 1)
ended (_ ∷ rs) = ended rs

-- accept_and_add_conn_to_poller returns once accept4 fails, EINTR aside: 0 for EAGAIN and -1 for an
-- error. Every socket that it has accepted stays open and belongs to nobody.
pub accept_and_add_conn_to_poller-taken :
    (rs : List Accept)
    → accept_and_add_conn_to_poller rs ≡ (elim (ended rs) as (λ _. Run (ℤ × List ℕ)) [
      | none ↦ running
      | some ret ↦ done (ret, taken rs)
    ])
unfolding accept_and_add_conn_to_poller
accept_and_add_conn_to_poller-taken [] = refl
accept_and_add_conn_to_poller-taken (interrupted ∷ rs) = accept_and_add_conn_to_poller-taken rs
accept_and_add_conn_to_poller-taken (again ∷ rs) = refl
accept_and_add_conn_to_poller-taken (broken ∷ rs) = refl
accept_and_add_conn_to_poller-taken (accepted sock ∷ rs) =
    ap (also sock) (accept_and_add_conn_to_poller-taken rs) ∙ also_option (ended rs)
  where
    also_option :
        (e : Option ℤ)
        → also sock
            (elim e as (λ _. Run (ℤ × List ℕ)) [ none ↦ running | some ret ↦ done (ret, taken rs) ])
          ≡ (elim e as (λ _. Run (ℤ × List ℕ)) [
            | none ↦ running
            | some ret ↦ done (ret, sock ∷ taken rs)
          ])
    also_option none = refl
    also_option (some ret) = refl
