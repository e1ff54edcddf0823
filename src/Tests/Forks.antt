-- ===== src/Tests/Forks.antt =====
-- Witnesses of the theorems about child processes.
use cpr.Common.{ℕ, List, [], ◌∷◌, ◌++◌, ◌≡◌, ◌≢◌, refl, pos, true, false}
use cpr.Os.{done}
use cpr.Fork.{
  reaper_nohang, sigchld, sigterm, ForkOs, Forks, exited, commit_suicide, construct_process,
}
use cpr.Fork.Children.{Signals, sent_by, signals_of, commit_suicide-ends_all}
use cpr.Fork.Reaping.{Reaps, reaper_nohang-Reaps}
use cpr.Fork.Steps.{IsWell, begins, continues, constructs, Reachable-IsWell}

-- A system that keeps the signals that were sent.
abbrev processes : ForkOs
processes = record {
  World = List (ℕ × ℕ);
  fork = λ w. (done 7, w);
  kill = λ n signo w. (done tt, w ++ (n, signo) ∷ []);
  waitpid = λ n w. (done (n, exited 0), w);
  wait_any = λ w. (done (7, exited 0), w);
  wait = λ w. (done 0, w);
  sigaction = λ signo h w. (done tt, w);
  siglist = λ n. [];
}

abbrev process_signals : Signals processes
process_signals = record {
  sent = λ w. w;
  kill_sends = λ n signo w. refl;
  waitpid_keeps = λ n w. refl;
}

-- Two children, the first of which is to be terminated.
abbrev two_children : Forks (List (ℕ × ℕ))
two_children = record {
  list =
      record { address = 2; pid = pos 8; kill_child = true; reason = true }
      ∷ record { address = 1; pid = pos 7; kill_child = false; reason = false }
      ∷ [];
  cerr = [];
  world = [];
}

commit_suicide-ends_all_example :
    (sent_by processes process_signals (commit_suicide processes two_children)
      ≡ sent_by processes process_signals two_children ++ signals_of two_children.list)
    × ((commit_suicide processes two_children).list ≡ [])
commit_suicide-ends_all_example =
    commit_suicide-ends_all processes process_signals two_children ((8, refl), ((7, refl), tt))

abbrev none_yet : Forks (List (ℕ × ℕ))
none_yet = record { list = []; cerr = []; world = [] }

Reachable-IsWell_example : IsWell processes (construct_process processes 1 true true none_yet).1
Reachable-IsWell_example =
    Reachable-IsWell processes (construct_process processes 1 true true none_yet).1
      (continues (begins []) (constructs 1 true true none_yet))

-- The system reports the end of the child 7, which stands second in the list.
reaper_nohang-Reaps_example :
    (sigterm ≢ sigchld → reaper_nohang processes sigterm two_children ≡ two_children)
    × Reaps processes two_children
        (done (7, exited 0))
        (reaper_nohang processes sigchld two_children)
    × ((reaper_nohang processes sigchld two_children).world ≡ [])
reaper_nohang-Reaps_example = reaper_nohang-Reaps processes sigterm two_children
