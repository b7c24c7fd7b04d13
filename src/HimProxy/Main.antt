-- ===== src/HimProxy/Main.antt =====
-- main.c: the command line and the start of the proxy. An option is what getopt returns for it, with its
-- argument as atoi reads it; what the calls behind answer is an argument too. Help and version are output.
mod Laws
mod Tests
use tpt.Common.{
  ℕ, Bool, true, false, Option, none, some, List, [], ◌∷◌, ℤ, pos, minus, is_neg, if◌then◌else◌,
}
use tpt.Common.{strncpy}
use tpt.HimProxy.{Run, done, running, fault}
use tpt.HimProxy.Children.{Fork, Children, Wait, create_multiple_child, wait_for_child}
use tpt.HimProxy.Network.{
  Calls, tcp_bind_and_listen, set_socket_non_blocking, set_socket_ip_transparent,
}

pub data Opt : Type 0 where
  help : Opt
  listen_ip_opt : (arg : List ℕ) → Opt
  log_level_opt : (arg : ℤ) → Opt
  num_child_opt : (arg : ℤ) → Opt
  listen_port_opt : (arg : ℤ) → Opt
  version : Opt
  invalid : Opt  -- '?'
  missing : Opt  -- ':'

-- The globals that the command line sets.
pub record Settings : Type 0 where
  pub listen_ip : List ℕ  -- char[16]
  pub listen_port : ℤ
  pub log_level : ℤ
  pub num_child : ℤ

-- The result of the loop so far is `ret`.
options_loop : ℤ → List Opt → Settings → ℤ × Settings
options_loop ret [] s = (ret, s)
options_loop ret (help ∷ opts) s = options_loop ret opts s
options_loop ret (listen_ip_opt arg ∷ opts) s =
    options_loop ret opts (record s { listen_ip = strncpy 16 arg })
options_loop ret (log_level_opt arg ∷ opts) s = options_loop ret opts (record s { log_level = arg })
options_loop ret (num_child_opt arg ∷ opts) s = options_loop ret opts (record s { num_child = arg })
options_loop ret (listen_port_opt arg ∷ opts) s =
    options_loop ret opts (record s { listen_port = arg })
options_loop ret (version ∷ opts) s = options_loop ret opts s
options_loop ret (invalid ∷ opts) s = options_loop (minus 1) opts s
options_loop ret (missing ∷ opts) s = options_loop (minus 1) opts s

pub parse_command_line : List Opt → Settings → ℤ × Settings
unfolding options_loop
parse_command_line opts s = options_loop (pos 0) opts s

-- What the system answers on the way: the calls of tcp_bind_and_listen, the two fcntl, setsockopt, and
-- then fork and waitpid.
pub record Replies : Type 0 where
  pub calls : Calls
  pub getfl : ℤ
  pub setfl : ℤ
  pub setsockopt : ℤ
  pub forks : ℕ → Fork
  pub waits : List Wait

-- exit(EXIT_FAILURE), or the return of 0 with the children as they are then.
pub data Exit : Type 0 where
  failure : Exit
  returned : (s : Children) → Exit

-- The children before the first is started.
abbrev pub no_children : Children
no_children = record { table = λ _. pos 0; active = 0 }

-- Behind the start of the children.
supervise : Run Children → Run Exit
supervise (done s) = done (returned s)
supervise running = running
supervise fault = fault

-- Behind the command line.
pub start : Replies → Settings → Run Exit
unfolding supervise
start r s =
    let (ret, sock) = tcp_bind_and_listen r.calls true s.listen_port (some (pos 0)) in
    if is_neg ret
    then done failure
    else if is_neg (set_socket_non_blocking r.getfl r.setfl sock)
    then done failure
    else if is_neg (set_socket_ip_transparent r.setsockopt sock)
    then done failure
    else supervise
        (wait_for_child s.num_child r.waits (create_multiple_child s.num_child r.forks no_children))

pub main : List Opt → Replies → Settings → Run Exit
unfolding start
main opts r s =
    let (ret, s') = parse_command_line opts s in if is_neg ret then done failure else start r s'
