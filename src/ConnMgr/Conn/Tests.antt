-- ===== src/ConnMgr/Conn/Tests.antt =====
-- conn_mgr_conn.c at some answers of the system, and the instances of its theorems there.
use tpt.Common.{true, false, none, some, [], ◌∷◌, pos, ◌≡◌, refl}
use tpt.ConnMgr.Errors.{success, null_params, conn_timedout}
use tpt.ConnMgr.Conn.{
  World, Fcntl, in_progress, failed, interrupted, nothing, ready, Replies, conn_new, conn_destroy,
  conn_get_fd,
}
use tpt.ConnMgr.Conn.Laws.{Outcome, conn_new-Outcome}

abbrev world : World
world = record { errno = null_params; closed = false; nonblocking = false }

abbrev fine : Fcntl
fine = record { getfl = pos 2; setfl = pos 0 }

abbrev slow : Replies
slow = record {
  socket = pos 5;
  before = fine;
  connect = in_progress;
  polls = interrupted ∷ interrupted ∷ ready 0 true ∷ [];
  after = fine;
  memory = true;
}

abbrev late : Replies
late = record slow { polls = interrupted ∷ nothing ∷ [] }

abbrev refused : Replies
refused = record slow { connect = failed 111 }

slow_connects : conn_new true slow world ≡ some (some (pos 5), record world { errno = success })
unfolding conn_new
slow_connects = refl

late_times_out :
    conn_new true late world ≡ some (none, record world { errno = conn_timedout; closed = true })
unfolding conn_new
late_times_out = refl

no_address : conn_new false slow world ≡ some (none, world)
unfolding conn_new
no_address = refl

destroyed : (conn_get_fd (some (pos 5)) world).0 ≡ pos 5
destroyed = unfold conn_get_fd in refl

closed_once : (conn_destroy (some (pos 5)) world).closed ≡ true
unfolding conn_destroy
closed_once = refl

conn_new-Outcome_example : Outcome slow (conn_new true slow world)
conn_new-Outcome_example = conn_new-Outcome slow world (λ e. refl) refl

-- A refused connection comes out as a connection, on a socket that stays non-blocking.
refused_comes_out :
    conn_new true refused world
    ≡ some (some (pos 5), record world { errno = success; nonblocking = true })
unfolding conn_new
refused_comes_out = refl
