-- ===== src/SpliceProxy/Net/Laws.antt =====
-- A failed connect leaves its socket open, and tcp_send_data sends its buffer in order.
use tpt.Common.{
  ℕ, ◌+◌, ◌≡◌, refl, ap, ◌∙◌, Bool, true, false, none, some, List, [], ◌∷◌, ◌++◌, length, take,
  drop, take-append-drop, pos, minus, is_neg, if◌then◌else◌, Bool-cases, inl, inr,
}
use mathlib.Core.List.{append_assoc}
use tpt.SpliceProxy.{after}
use tpt.SpliceProxy.Laws.{IsPrefix}
use tpt.SpliceProxy.Net.{
  bad_port, Calls, tcp_connect_to_server, Send, interrupted, broken, accepts, data_loop,
  tcp_send_data,
}

-- Once socket() has returned a descriptor: tcp_connect_to_server returns 0 and passes it on, or it returns -1, has
-- passed nothing on, and leaves the descriptor open, so that nobody can close it.
pub tcp_connect_to_server-leak :
    (port fd : ℕ) (c : Calls)
    → bad_port (pos port) ≡ false
    → c.socket ≡ pos fd
    → tcp_connect_to_server true (pos port) c ≡ (
        if c.aton
        then (if is_neg c.connect
            then record { ret = minus 1; left_open = some fd; passed = none }
            else record { ret = pos 0; left_open = some fd; passed = some (pos fd) })
        else record { ret = minus 1; left_open = some fd; passed = none })
unfolding tcp_connect_to_server
tcp_connect_to_server-leak port fd c fine made = elim (Bool-cases c.aton) [
  | inl reads ↦ rw (fine, made, reads) refl
  | inr fails ↦ rw (fine, made, fails) refl
]

data_loop-IsPrefix :
    (ss : List Send) (bytes : List ℕ) (n : ℕ) → IsPrefix bytes (data_loop ss bytes n)
unfolding data_loop after
data_loop-IsPrefix ss [] n = ([], refl)
data_loop-IsPrefix [] (b ∷ bs) n = (b ∷ bs, refl)
data_loop-IsPrefix (interrupted ∷ ss) (b ∷ bs) n = data_loop-IsPrefix ss (b ∷ bs) n
data_loop-IsPrefix (broken ∷ ss) (b ∷ bs) n = (b ∷ bs, refl)
data_loop-IsPrefix (accepts room ∷ ss) (b ∷ bs) n =
    let now = take room (b ∷ bs) in
    let later = data_loop ss (drop room (b ∷ bs)) (n + length now) in
    let (rest, e) = data_loop-IsPrefix ss (drop room (b ∷ bs)) (n + length now) in
    (
      rest,
      append_assoc now later.1 rest
          ∙ ap (λ (l : List ℕ). now ++ l) e
          ∙ take-append-drop room (b ∷ bs),
    )

-- What tcp_send_data has sent, wherever it stands or stops, is the beginning of its buffer.
pub tcp_send_data-IsPrefix :
    (given : Bool) (ss : List Send) (buf : List ℕ) → IsPrefix buf (tcp_send_data given ss buf)
unfolding tcp_send_data
tcp_send_data-IsPrefix false ss buf = (buf, refl)
tcp_send_data-IsPrefix true ss buf = data_loop-IsPrefix ss buf 0
