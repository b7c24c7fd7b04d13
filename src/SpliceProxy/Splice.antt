-- ===== src/SpliceProxy/Splice.antt =====
-- sproxy_splice.c: the way of the server's data to the client, through a pipe. What splice and poll answer
-- is an argument. A run returns its result, `none` while it still waits when the answers end, with
-- what it has done to the pipe and the client's socket so far.
pub mod Laws
mod Tests
use tpt.SpliceProxy.{after_poll}
use tpt.Common.{
  ℕ, ◌+◌, Bool, true, false, Option, none, some, List, [], ◌∷◌, ◌++◌, length, take, drop, ℤ, pos,
  minus, is_neg, int_eq, if◌then◌else◌,
}

-- The bytes in the pipe, and those that the client's socket has taken.
pub record Flow : Type 0 where
  pub pipe : List ℕ
  pub out : List ℕ

abbrev pub Spliced : Type 0
Spliced = Option ℤ × Flow

-- A round of splice_with_poll: poll fails with EINTR, or with another errno, or times out, or reports the
-- socket without POLLOUT; or splice fails, or moves what the socket has `room` for, which may be nothing.
pub data Out : Type 0 where
  interrupted : Out
  broken : Out
  timed_out : Out
  not_ready : Out
  splice_failed : Out
  moves : (room : ℕ) → Out

-- What one splice from the pipe moves, of `len` bytes that it is asked for.
abbrev pub moved : (len room : ℕ) → Flow → List ℕ
moved len room f = take room (take len f.pipe)

pub splice_with_poll : (len : ℕ) → List Out → Flow → Spliced
splice_with_poll len [] f = (none, f)
splice_with_poll len (interrupted ∷ os) f = splice_with_poll len os f
splice_with_poll len (broken ∷ os) f = (some (minus 1), f)
splice_with_poll len (timed_out ∷ os) f = (some (minus 1), f)
splice_with_poll len (not_ready ∷ os) f = splice_with_poll len os f
splice_with_poll len (splice_failed ∷ os) f = (some (minus 1), f)
splice_with_poll len (moves room ∷ os) f = (
  some (pos (length (moved len room f))),
  record { pipe = drop (length (moved len room f)) f.pipe; out = f.out ++ moved len room f },
)

-- The splice from the server: it fails with EAGAIN, or with another errno; it returns 0; or it puts bytes
-- into the pipe, and `outs` are the answers that splice_with_poll gets behind it.
pub data In : Type 0 where
  again : In
  failed : In
  ended : In
  into : (bytes : List ℕ) → (outs : List Out) → In

splice_loop : (len : ℕ) → List In → Flow → Spliced
unfolding after_poll splice_with_poll
splice_loop len [] f = (none, f)
splice_loop len (again ∷ is) f = (some (pos 1), f)
splice_loop len (failed ∷ is) f = (some (minus 1), f)
splice_loop len (ended ∷ is) f = (some (pos 0), f)
splice_loop len (into bytes outs ∷ is) f =
    let (ret, f') = splice_with_poll len outs (record f { pipe = f.pipe ++ bytes }) in
    after_poll ret f' (splice_loop len is f')

-- `pipefd` says that pipefd_arr is not NULL.
unfoldable pub make_splice : (pipefd : Bool) → (len : ℕ) → List In → Flow → Spliced
unfolding splice_loop
make_splice false len is f = (some (minus 1), f)
make_splice true len is f = splice_loop len is f
