-- ===== src/EventServer/Laws.antt =====
-- What a connection of the event server holds in each state that it gets into.
use tpt.Common.{
  ◌≡◌, refl, sym, ap, subst, ◌∙◌, ◌⊎◌, inl, inr, Bool, true, false, not, ◌&&◌, ◌||◌, none, some,
  List, [], ◌∷◌, ℤ, pos, negsuc, is_neg, int_eq, if◌then◌else◌, arith, Bool-cases,
}
use tpt.EventServer.{
  Conn, nothing, cli_send_cb, Recv, again, broken, closed, got, cli_recv_cb, Accept, srvr_accept_cb,
  Life, accepted, received, sent,
}

-- The connection stands, and waits for input; `waiting` says that it waits to send, too.
abbrev pub live : (waiting : Bool) → Conn
live waiting = record {
  sock = true;
  cinfo = true;
  ev_read = true;
  ev_write = true;
  read_added = true;
  write_added = waiting;
}

-- The socket is closed, and the struct and its events are left, which no callback gets.
abbrev pub leaked : Conn
leaked = record {
  sock = false;
  cinfo = true;
  ev_read = true;
  ev_write = true;
  read_added = false;
  write_added = false;
}

abbrev pub IsKnown : Conn → Type 0
IsKnown c = (c ≡ nothing) ⊎ (((waiting : Bool) × (c ≡ live waiting)) ⊎ (c ≡ leaked))

-- Every call of srvr_accept_cb up to event_add succeeds.
abbrev pub set_up : Accept → Bool
set_up a = not (is_neg a.sock) && (not (is_neg a.fcntl) && (a.memory && (a.ev_read && a.ev_write)))

abbrev pub accept_outcome : Accept → Conn
accept_outcome a =
    if set_up a then (if int_eq a.event_add (pos 0) then live false else leaked) else nothing

by_calls :
    (sock fcntl : ℤ) (memory ev_read ev_write : Bool) (event_add : ℤ)
    → (a : Accept)
    → a ≡ record {
      sock = sock;
      fcntl = fcntl;
      memory = memory;
      ev_read = ev_read;
      ev_write = ev_write;
      event_add = event_add;
    }
    → srvr_accept_cb a ≡ accept_outcome a
unfolding srvr_accept_cb
by_calls (negsuc n) f m r w e a h = rw h refl
by_calls (pos n) (negsuc k) m r w e a h = rw h refl
by_calls (pos n) (pos k) false r w e a h = rw h refl
by_calls (pos n) (pos k) true false w e a h = rw h refl
by_calls (pos n) (pos k) true true false e a h = rw h refl
by_calls (pos n) (pos k) true true true e a h = elim (Bool-cases (int_eq e (pos 0))) [
  | inl added ↦ rw (h, added) refl
  | inr full ↦ rw (h, full) refl
]

-- A connection stands behind srvr_accept_cb when all its calls succeed. When only the last, event_add, fails, the
-- socket is closed and the struct is left with its events. When another fails, nothing is left.
pub srvr_accept_cb-outcome : (a : Accept) → srvr_accept_cb a ≡ accept_outcome a
srvr_accept_cb-outcome a = by_calls a.sock a.fcntl a.memory a.ev_read a.ev_write a.event_add a refl

-- Every event_add of the callback succeeds.
abbrev pub all_added : List Recv → Bool
all_added [] = true
all_added (got ret ∷ rs) = int_eq ret (pos 0) && all_added rs
all_added (_ ∷ rs) = true

-- recv fails in the end, and bytes have come in before.
abbrev pub stays_open : List Recv → Bool
stays_open [] = false
stays_open (again ∷ rs) = true
stays_open (broken ∷ rs) = true
stays_open (closed ∷ rs) = false
stays_open (got ret ∷ rs) = int_eq ret (pos 0) && stays_open rs

abbrev pub some_bytes : List Recv → Bool
some_bytes (got ret ∷ rs) = true
some_bytes _ = false

-- Something ends the callback.
abbrev pub ends : List Recv → Bool
ends [] = false
ends (got ret ∷ rs) = not (int_eq ret (pos 0)) || ends rs
ends (_ ∷ rs) = true

abbrev pub recv_outcome : List Recv → (waiting : Bool) → Conn
recv_outcome rs waiting = if stays_open rs then live (waiting || some_bytes rs) else nothing

or_true : (b : Bool) → (b || true) ≡ true
or_true b = ground arith

or_false : (b : Bool) → (b || false) ≡ b
or_false b = ground arith

-- A callback on a connection that stands ends when recv fails or returns 0, or event_add fails. If recv
-- fails, and every event_add before has succeeded, the connection stands, and waits to send if it did so before or bytes
-- have come in. Otherwise nothing of it is left.
pub cli_recv_cb-outcome :
    (rs : List Recv) (waiting : Bool)
    → cli_recv_cb rs (live waiting) ≡ (if ends rs then some (recv_outcome rs waiting) else none)
unfolding cli_recv_cb
cli_recv_cb-outcome [] waiting = refl
cli_recv_cb-outcome (again ∷ rs) waiting = rw (or_false waiting) refl
cli_recv_cb-outcome (broken ∷ rs) waiting = rw (or_false waiting) refl
cli_recv_cb-outcome (closed ∷ rs) waiting = refl
cli_recv_cb-outcome (got ret ∷ rs) waiting = elim (Bool-cases (int_eq ret (pos 0))) [
  | inl added ↦ rw (added, or_true waiting) (cli_recv_cb-outcome rs true)
  | inr full ↦ rw full refl
]

recv_outcome-IsKnown : (rs : List Recv) (waiting : Bool) → IsKnown (recv_outcome rs waiting)
recv_outcome-IsKnown rs waiting = elim (Bool-cases (stays_open rs)) [
  | inl stays ↦ rw stays (inr (inl (waiting || some_bytes rs, refl)))
  | inr gone ↦ rw gone (inl refl)
]

accept_outcome-IsKnown : (a : Accept) → IsKnown (accept_outcome a)
accept_outcome-IsKnown a = elim (Bool-cases (set_up a)) [
  | inl good ↦ elim (Bool-cases (int_eq a.event_add (pos 0))) [
    | inl added ↦ rw (good, added) (inr (inl (false, refl)))
    | inr full ↦ rw (good, full) (inr (inr refl))
  ]
  | inr bad ↦ rw bad (inl refl)
]

received-IsKnown :
    (c c' : Conn) (rs : List Recv)
    → IsKnown c
    → c.read_added ≡ true
    → cli_recv_cb rs c ≡ some c'
    → IsKnown c'
received-IsKnown c c' rs (inl gone) added e = absurd (ground arith)
received-IsKnown c c' rs (inr (inr lost)) added e = absurd (ground arith)
received-IsKnown c c' rs (inr (inl (waiting, stands))) added e =
    by_end (ends rs) (sym (cli_recv_cb-outcome rs waiting) ∙ ap (cli_recv_cb rs) (sym stands) ∙ e)
  where
    by_end :
        (b : Bool) → (if b then some (recv_outcome rs waiting) else none) ≡ some c' → IsKnown c'
    by_end true h =
        let same : recv_outcome rs waiting ≡ c' = cc in
        subst IsKnown same (recv_outcome-IsKnown rs waiting)
    by_end false h = absurd (ground arith)

sent-IsKnown : (c : Conn) → IsKnown c → c.write_added ≡ true → IsKnown (cli_send_cb c)
unfolding cli_send_cb
sent-IsKnown c (inl gone) added = absurd (ground arith)
sent-IsKnown c (inr (inr lost)) added = absurd (ground arith)
sent-IsKnown c (inr (inl (waiting, stands))) added =
    inr (inl (false, ap (λ (d : Conn). record d { write_added = false }) stands))

-- Whatever happens to a connection, nothing of it is left, or it stands with its socket, its struct and both
-- events, or only its struct and the events are left, without the socket. So every
-- callback that is called finds the struct and the socket there.
pub Life-IsKnown : (c : Conn) → Life c → IsKnown c
Life-IsKnown c (accepted a) =
    subst IsKnown (sym (srvr_accept_cb-outcome a)) (accept_outcome-IsKnown a)
Life-IsKnown c (received b c' rs l added e) = received-IsKnown b c rs (Life-IsKnown b l) added e
Life-IsKnown c (sent b l added) = sent-IsKnown b (Life-IsKnown b l) added
