-- ===== src/ConnMgr/Conn/Laws.antt =====
-- When conn_mgr_conn_new succeeds, and what it leaves of the socket.
use tpt.Common.{
  ℕ, Bool, true, false, not, ◌&&◌, ◌||◌, Option, none, some, List, [], ◌∷◌, if◌then◌else◌, ℤ,
  is_neg, ◌≡◌, ◌↔◌, ◌≢◌, Bool-cases, ◌⊎◌, inl, inr, refl, arith,
}
use tpt.ConnMgr.Errors.{success, conn_socket, conn_setnonblocking}
use tpt.ConnMgr.Conn.{
  World, Fcntl, Connect, connected, in_progress, failed, Poll, interrupted, broken, nothing, ready,
  Replies, Conn, conn_new, back_to_blocking, poll_for_connect, connect_on, new_from,
}

-- Both calls of fcntl succeed.
abbrev pub fcntl_ok : Fcntl → Bool
fcntl_ok r = not (is_neg r.getfl) && not (is_neg r.setfl)

-- The first answer of `poll` that is not an interruption says that the socket can be written to.
abbrev pub polled_out : List Poll → Bool
polled_out [] = false
polled_out (interrupted ∷ rest) = polled_out rest
polled_out (ready n out ∷ rest) = out
polled_out (_ ∷ rest) = false

-- Some answer of `poll` is not an interruption.
abbrev pub answered : List Poll → Bool
answered [] = false
answered (interrupted ∷ rest) = answered rest
answered (_ ∷ rest) = true

-- What the calls have to answer after `connect` for the socket to be connected.
abbrev pub connects : Replies → Connect → Bool
connects r connected = fcntl_ok r.after
connects r in_progress = polled_out r.polls && fcntl_ok r.after
connects r (failed err) = false

-- `connect` fails at once, with another error than EINPROGRESS.
abbrev pub refuses : Connect → Bool
refuses connected = false
refuses in_progress = false
refuses (failed err) = true

-- There are a socket in non-blocking mode and the memory for a connection.
abbrev pub prepared : Replies → Bool
prepared r = not (is_neg r.socket) && (fcntl_ok r.before && r.memory)

-- What the calls have to answer for a connection to be made.
abbrev pub goes_through : Replies → Bool
goes_through r = prepared r && connects r r.connect

-- A connection that is refused, and that the function takes for one that is made.
abbrev pub mistaken : Replies → Bool
mistaken r = prepared r && refuses r.connect

poll_for_connect-answered :
    (ps : List Poll) (w : World)
    → answered ps ≡ true
    → (ret : ℤ) × (w' : World) × (poll_for_connect ps w ≡ some (ret, w'))
      × (is_neg ret ≡ not (polled_out ps))
      × (w'.closed ≡ w.closed)
      × (w'.nonblocking ≡ w.nonblocking)
      × ((w'.errno ≢ success) ⊎ (is_neg ret ≡ false))
unfolding poll_for_connect
poll_for_connect-answered [] w h = cc
poll_for_connect-answered (interrupted ∷ ps) w h = poll_for_connect-answered ps w h
poll_for_connect-answered (broken err ∷ ps) w h = (_, _, refl, refl, refl, refl, inl (λ e. cc))
poll_for_connect-answered (nothing ∷ ps) w h = (_, _, refl, refl, refl, refl, inl (λ e. cc))
poll_for_connect-answered (ready n true ∷ ps) w h = (_, _, refl, refl, refl, refl, inr refl)
poll_for_connect-answered (ready n false ∷ ps) w h = (_, _, refl, refl, refl, refl, inl (λ e. cc))

connect_on-connects :
    (r : Replies) (c : Connect) (w : World)
    → (c ≡ in_progress → answered r.polls ≡ true)
    → (ret : ℤ) × (w' : World) × (connect_on r c w ≡ some (ret, w'))
      × (is_neg ret ≡ not (connects r c || refuses c))
      × (w'.closed ≡ w.closed)
      × ((w'.errno ≢ success) ⊎ (is_neg ret ≡ false))
unfolding connect_on
connect_on-connects r connected w h = (_, _, refl, ground arith, ground arith, ground arith)
connect_on-connects r (failed err) w h = (_, _, refl, refl, refl, inr refl)
connect_on-connects r in_progress w h =
    let (ret, w', runs, sign, same, mode, why) = poll_for_connect-answered r.polls w (h refl) in
    let end = back_to_blocking r.after ret w' in
    (end.0, end.1, ground arith, ground arith, ground arith, ground arith)

-- A run of conn_mgr_conn_new with an address, on a socket that is not yet closed: what it returns, the
-- error that it leaves, and whether it closes the socket.
pub record Outcome (r : Replies) (out : Option (Conn × World)) : Type 0 where
  pub conn : Conn
  pub left : World
  pub runs : out ≡ some (conn, left)
  pub returned : conn ≡ (if goes_through r || mistaken r then some r.socket else none)
  pub reported : (left.errno ≡ success) ↔ ((goes_through r || mistaken r) ≡ true)
  pub released : left.closed ≡ (not (goes_through r || mistaken r) && not (is_neg r.socket))

module _ (r : Replies) (w : World) (w_open : w.closed ≡ false) where
  no_socket : is_neg r.socket ≡ true → Outcome r (conn_new true r w)
  unfolding conn_new
  no_socket e = record {
    conn = none;
    left = record w { errno = conn_socket };
    runs = rw e refl;
    returned = rw e refl;
    reported = (λ f. cc, λ f. ground arith);
    released = ground arith;
  }

  not_switched : is_neg r.socket ≡ false → fcntl_ok r.before ≡ false → Outcome r (conn_new true r w)
  unfolding conn_new
  not_switched e f = record {
    conn = none;
    left = record w { errno = conn_setnonblocking; closed = true };
    runs = ground arith;
    returned = ground arith;
    reported = (λ g. cc, λ g. ground arith);
    released = ground arith;
  }

  switched :
      is_neg r.socket ≡ false
      → fcntl_ok r.before ≡ true
      → (r.connect ≡ in_progress → answered r.polls ≡ true)
      → Outcome r (conn_new true r w)
  unfolding conn_new
  switched e f h =
      let w₁ : World = record w { nonblocking = true } in
      let (ret, w', runs, sign, same, why) = connect_on-connects r r.connect w₁ h in
      let end = new_from r (ret, w') in
      record {
        conn = end.0;
        left = end.1;
        runs = ground arith;
        returned = ground arith;
        reported = (λ g. ground arith, λ g. ground arith);
        released = ground arith;
      }

-- Unless `poll` keeps being interrupted, conn_mgr_conn_new with an address returns. It returns a
-- connection on the new socket when socket, fcntl, connect, poll and malloc let one be made (`goes_through`), and also,
-- against its documentation, when connect is refused at once with an error other than EINPROGRESS, if the socket, its
-- switch to non-blocking mode and the memory are there (`mistaken`). It leaves the error code of success exactly in these
-- two cases, and in all others returns NULL and has closed the socket if there was one.
pub conn_new-Outcome :
    (r : Replies) (w : World)
    → (r.connect ≡ in_progress → answered r.polls ≡ true)
    → w.closed ≡ false
    → Outcome r (conn_new true r w)
conn_new-Outcome r w h w_open = elim (Bool-cases (is_neg r.socket)) [
  | inl no_fd ↦ no_socket r w w_open no_fd
  | inr fd ↦ elim (Bool-cases (fcntl_ok r.before)) [
    | inl ok ↦ switched r w w_open fd ok h
    | inr bad ↦ not_switched r w w_open fd bad
  ]
]

-- When `connect` fails at once, with any error but EINPROGRESS, conn_mgr_conn_new nevertheless returns a
-- connection and the code of success, given that the socket, its switch to non-blocking mode and the
-- memory are there; and the socket stays in non-blocking mode.
pub conn_new_refused :
    (r : Replies) (w : World) (err : ℕ)
    → is_neg r.socket ≡ false
    → fcntl_ok r.before ≡ true
    → r.memory ≡ true
    → r.connect ≡ failed err
    → conn_new true r w ≡ some (some r.socket, record w { errno = success; nonblocking = true })
unfolding conn_new connect_on
conn_new_refused r w err fd ok memory refused = ground arith
