-- ===== src/ProxyOld/Main.antt =====
-- proxy_main.c: the command line and the start of the proxy. Starting the children and waiting for them is the same code as in
-- himproxy. What the calls answer is an argument; help and version are output.
mod Laws
mod Tests
use tpt.Common.{ℕ, true, List, [], ◌∷◌, ℤ, pos, is_neg, strncpy, if◌then◌else◌}
use tpt.HimProxy.{Run, done, running, fault}
use tpt.HimProxy.Children.{Fork, Children, Wait, create_multiple_child, wait_for_child}
use tpt.ProxyOld.Config.{Conf, ProxyConfig, get_config}
use tpt.ProxyOld.Net.{Calls, tcp_bind_and_listen}

-- `c` with its argument, or any other, which only writes a text.
pub data Opt : Type 0 where
  conf_opt : (arg : List ℕ) → Opt
  printing : Opt

-- char conf_file[32]
abbrev pub conf_file_size : ℕ
conf_file_size = 32

pub parse_command_line_arguments : List Opt → (conf_file : List ℕ) → List ℕ
parse_command_line_arguments [] file = file
parse_command_line_arguments (conf_opt arg ∷ opts) file =
    parse_command_line_arguments opts (strncpy conf_file_size arg)
parse_command_line_arguments (printing ∷ opts) file = parse_command_line_arguments opts file

-- What jsf_conf_load returns for a name with what it finds, and the answers of the system.
pub record Replies : Type 0 where
  pub load : List ℕ → ℤ × Conf
  pub calls : Calls
  pub forks : ℕ → Fork
  pub waits : List Wait

-- exit(1), or the return of 0 with the children as they are then.
pub data Exit : Type 0 where
  exited : (status : ℕ) → Exit
  returned : (s : Children) → Exit

-- The children before the first is started.
abbrev pub no_children : Children
no_children = record { table = λ _. pos 0; active = 0 }

pub supervise : Run Children → Run Exit
supervise (done s) = done (returned s)
supervise running = running
supervise fault = fault

-- Behind the configuration.
pub start : Replies → ProxyConfig → Run Exit
unfolding supervise
start r c =
    if is_neg (tcp_bind_and_listen true c.listen_port r.calls).ret
    then done (exited 1)
    else supervise (
        wait_for_child c.child_count r.waits
          (create_multiple_child c.child_count r.forks no_children))

pub then_start : Replies → Run (ℤ × ProxyConfig) → Run Exit
unfolding start
then_start r running = running
then_start r fault = fault
then_start r (done (ret, c)) = if is_neg ret then done (exited 1) else start r c

-- `old` is g_proxy_config before, and the name of the file is empty if no option gives one.
pub main : List Opt → Replies → (old : ProxyConfig) → Run Exit
unfolding then_start
main opts r old =
    let (load, conf) = r.load (parse_command_line_arguments opts []) in
    then_start r (get_config true load conf old)
