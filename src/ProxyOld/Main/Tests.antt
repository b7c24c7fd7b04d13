-- ===== src/ProxyOld/Main/Tests.antt =====
-- A file that asks for two children, one of which is started again before both end.
use tpt.Common.{ℕ, ◌+◌, refl, true, some, List, [], ◌∷◌, pos, minus, arith}
use tpt.HimProxy.Children.Laws.{restarted}
use tpt.HimProxy.Children.{Fork, forked, clamped, Wait, interrupted, exited}
use tpt.ProxyOld.Config.{Conf, ProxyConfig}
use tpt.ProxyOld.Net.{Calls, bad_port}
use tpt.ProxyOld.Main.{Opt, conf_opt, printing, Replies, main}
use tpt.ProxyOld.Main.Laws.{Supervised, first_table, main-supervises}

abbrev two_children : Conf
two_children = record {
  listen_ip = some (58 ∷ []);
  listen_port = minus 1;
  child_count = pos 2;
  log_level = pos 7;
  workq_parallelism = pos 2;
  workq_thread_timeout = pos 3;
  workq_length = pos 5;
  ip_transparency = pos 1;
}

abbrev before : ProxyConfig
before = record {
  listen_ip = [];
  listen_port = pos 0;
  child_count = pos 0;
  log_level = pos 0;
  workq_parallelism = pos 0;
  workq_thread_timeout = pos 0;
  workq_length = pos 0;
  ip_transparency = pos 0;
}

abbrev fine : Calls
fine = record {
  socket = pos 3;
  transparent = pos 0;
  client_aton = true;
  aton = true;
  bind = pos 0;
  listen = pos 0;
  connect = pos 0;
}

abbrev forks : ℕ → Fork
forks i = forked (100 + i)

abbrev answers : List Wait
answers = exited 101 9 forks ∷ interrupted ∷ exited 102 0 forks ∷ exited 101 0 forks ∷ []

abbrev replies : Replies
replies = record {
  load = λ name. (pos 0, two_children);
  calls = fine;
  forks = forks;
  waits = answers;
}

abbrev opts : List Opt
opts = printing ∷ conf_opt (99 ∷ []) ∷ []

main-supervises_example :
    Supervised 2 2
      (restarted (pos 2) (pos 101) forks (first_table (pos 2) forks))
      (main opts replies before)
unfolding bad_port clamped
main-supervises_example =
    main-supervises opts replies before (pos 0) two_children (58 ∷ []) 3 refl refl refl refl refl
      refl (omega arith) refl
