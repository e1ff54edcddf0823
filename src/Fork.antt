-- ===== src/Fork.antt =====
-- The child processes (socket++/fork.h, socket++/fork.cpp). The static `list` is the list of the
-- objects that it reaches by `next`, each with its address. The calls of the system are the parameter
-- `ForkOs`; the results that the code ignores are not looked at. What is read of an object that has
-- been deleted is taken to be what it held.
pub mod Children
pub mod Steps
pub mod Reaping
use cpr.Common.{
  ℕ, zero, suc, List, [], ◌∷◌, ◌++◌, Bool, true, false, not, ◌&&◌, ◌==◌, ltb, Option, none, some, ℤ,
  pos, negsuc, codes, decimal, if◌then◌else◌,
}
use cpr.Os.{Sys, done, fails, Call}

pub data Status : Type 0 where
  stopped exited signaled : ℕ → Status

pub data Handler : Type 0 where
  reaper_nohang_handler commit_suicide_handler : Handler

pub record ForkOs : Type 1 where
  pub World : Type 0
  -- 0 in the child, and the child's number in the parent.
  pub fork : Call World ℕ
  pub kill : ℕ → ℕ → Call World (Unit {0})
  pub waitpid : ℕ → Call World (ℕ × Status)
  -- `waitpid (-1, &status, WNOHANG)` and `wait (0)`.
  pub wait_any : Call World (ℕ × Status)
  pub wait : Call World ℕ
  pub sigaction : ℕ → Handler → Call World (Unit {0})
  pub siglist : ℕ → List ℕ

-- A `ForkProcess` and its address.
pub record Process : Type 0 where
  pub address : ℕ
  pub pid : ℤ
  pub kill_child : Bool
  pub reason : Bool

-- `list`, what has gone to `std::cerr`, and the system.
pub record Forks (W : Type 0) : Type 0 where
  pub list : List Process
  pub cerr : List ℕ
  pub world : W

abbrev pub sigkill : ℕ
sigkill = 9

abbrev pub sigterm : ℕ
sigterm = 15

abbrev pub sigchld : ℕ
sigchld = 17

abbrev pub is_null : List Process → Bool
is_null [] = true
is_null (p ∷ ps) = false

-- The process number of a child, if `pid > 0`.
abbrev pub child_of : ℤ → Option ℕ
child_of (pos zero) = none
child_of (pos (suc n)) = some (suc n)
child_of (negsuc n) = none

-- The list without the object at an address.
unfoldable pub unlink : ℕ → List Process → List Process
unlink a [] = []
unlink a (p ∷ ps) = let rest = unlink a ps in if p.address == a then ps else p ∷ rest

abbrev pub has_pid : ℕ → ℤ → Bool
has_pid n (pos m) = m == n
has_pid n (negsuc m) = false

-- The first object of the list whose `pid` is the given one, and the list without it.
unfoldable pub find_pid : ℕ → List Process → Option Process
find_pid n [] = none
find_pid n (p ∷ ps) = let rest = find_pid n ps in if has_pid n p.pid then some p else rest

unfoldable pub unlink_pid : ℕ → List Process → List Process
unlink_pid n [] = []
unlink_pid n (p ∷ ps) = let rest = unlink_pid n ps in if has_pid n p.pid then ps else p ∷ rest

module _ (os : ForkOs) where
  abbrev pub ignored : {A : Type 0} → Call os.World A → Forks os.World → Forks os.World
  ignored f s = record s { world = (f s.world).1 }

  -- The text of `infanticide_reason`.
  unfoldable pub reason_text : ℕ → Status → List ℕ
  reason_text pid (stopped n) =
      codes "process " ++ (decimal pid ++ (codes " gets " ++ (os.siglist n ++ 10 ∷ [])))
  reason_text pid (exited n) =
      codes "process " ++ (decimal pid ++ (codes " exited with status " ++ (decimal n ++ 10 ∷ [])))
  reason_text pid (signaled n) =
      codes "process " ++ (decimal pid ++ (codes " got " ++ (os.siglist n ++ 10 ∷ [])))

  unfoldable pub infanticide_reason : ℕ → Status → Forks os.World → Forks os.World
  infanticide_reason pid status s =
      if ltb 0 pid then record s { cerr = s.cerr ++ reason_text pid status } else s

  -- What follows a `waitpid` for the child `n`.
  abbrev pub reaped : ℕ → Bool → Forks os.World → Sys (ℕ × Status) × os.World → Forks os.World
  reaped n reason s (done (m, status), w) =
      let s' = record s { world = w } in
      if (m == n) && reason then infanticide_reason n status s' else s'
  reaped n reason s (fails e, w) = record s { world = w }

  unfoldable pub reap_child : Process → Forks os.World → Forks os.World
  reap_child p s = elim (child_of p.pid) [
    | none ↦ s
    | some n ↦ reaped n p.reason s (os.waitpid n s.world)
  ]

  unfoldable pub kill_process : Process → Forks os.World → Forks os.World
  kill_process p s = elim (child_of p.pid) [
    | none ↦ s
    | some n ↦ reap_child p (ignored (os.kill n sigkill) s)
  ]

  abbrev pub remove : Process → Forks os.World → Forks os.World
  remove p s = record s { list = unlink p.address s.list }

  -- The destructor of `ForkProcess`, for a child and its flag `kill_child`.
  abbrev pub destroy_on : Option ℕ → Bool → Process → Forks os.World → Forks os.World
  destroy_on none kill p s = s
  destroy_on (some n) kill p s =
      remove p (reap_child p (if kill then ignored (os.kill n sigterm) s else s))

  unfoldable pub destroy_process : Process → Forks os.World → Forks os.World
  destroy_process p s = destroy_on (child_of p.pid) p.kill_child p s

  abbrev pub with_reaper : Forks os.World → Forks os.World
  with_reaper s =
      if is_null s.list then ignored (os.sigaction sigchld reaper_nohang_handler) s else s

  -- What the constructor does with the result of `fork`: the new object, and the list.
  abbrev pub forked : ℕ → Bool → Bool → Forks os.World → Sys ℕ × os.World → Process × Forks os.World
  forked address kill reason s (done zero, w) =
      let s' = record s { list = []; world = w } in
      (
        record { address = address; pid = pos 0; kill_child = kill; reason = reason },
        if kill then ignored (os.sigaction sigterm commit_suicide_handler) s' else s',
      )
  forked address kill reason s (done (suc n), w) =
      let p : Process = record {
        address = address;
        pid = pos (suc n);
        kill_child = kill;
        reason = reason;
      } in
      (p, record s { list = p ∷ s.list; world = w })
  forked address kill reason s (fails e, w) = (
    record { address = address; pid = negsuc 0; kill_child = kill; reason = reason },
    record s { world = w },
  )

  -- `ForkProcess (kill, give_reason)`, with the address of the new object. In the child the objects
  -- of the list are deleted with `pid` 0, which their destructor leaves at that.
  unfoldable pub construct_process : ℕ → Bool → Bool → Forks os.World → Process × Forks os.World
  construct_process address kill reason s =
      let s' = with_reaper s in forked address kill reason s' (os.fork s'.world)

  abbrev pub report : Option Process → ℕ → Status → Forks os.World → Forks os.World
  report none n status s = s
  report (some p) n status s = if p.reason then infanticide_reason n status s else s

  abbrev pub reap_any : Forks os.World → Sys (ℕ × Status) × os.World → Forks os.World
  reap_any s (done (zero, status), w) = record s { world = w }
  reap_any s (done (suc n, status), w) =
      report (find_pid (suc n) s.list) (suc n) status
        (record s { list = unlink_pid (suc n) s.list; world = w })
  reap_any s (fails e, w) = record s { world = w }

  -- The object that is found has its `pid` set to -1 before it is deleted: its destructor does nothing.
  unfoldable pub reaper_nohang : ℕ → Forks os.World → Forks os.World
  reaper_nohang signo s = if signo == sigchld then reap_any s (os.wait_any s.world) else s

  -- `SIGCHLD` reaches the process some times, and the handler that the constructor has installed runs.
  unfoldable pub deliver : ℕ → Forks os.World → Forks os.World
  deliver zero s = s
  deliver (suc times) s = deliver times (reaper_nohang sigchld s)

  -- `if (!p->kill_child) kill (p->pid, SIGKILL);` An object of the list stands for a child.
  abbrev pub kill_unmarked : Option ℕ → Bool → Forks os.World → Forks os.World
  kill_unmarked none kill s = s
  kill_unmarked (some n) kill s = if kill then s else ignored (os.kill n sigkill) s

  unfoldable pub end_child : Process → Forks os.World → Forks os.World
  end_child p s = destroy_process p (kill_unmarked (child_of p.pid) p.kill_child s)

  -- `commit_suicide` up to its `exit`, over the objects of the list.
  unfoldable pub end_children : List Process → Forks os.World → Forks os.World
  end_children [] s = s
  end_children (p ∷ ps) s = end_children ps (end_child p s)

  unfoldable pub commit_suicide : Forks os.World → Forks os.World
  commit_suicide s = end_children s.list s

  unfoldable pub kill_marked : List Process → Forks os.World → Forks os.World
  kill_marked [] s = s
  kill_marked (p ∷ ps) s = kill_marked ps (if p.kill_child then destroy_process p s else s)

  -- `while (list && wait (0) > 0);` with the rounds that it may make; the flag says whether it ended.
  unfoldable pub wait_all : ℕ → Forks os.World → Bool × Forks os.World
  wait_all zero s = (false, s)
  wait_all (suc fuel) s =
      let next = wait_all fuel (ignored os.wait s) in
      if is_null s.list then (true, s) else elim (os.wait s.world).0 [
        | done n ↦ if ltb 0 n then next else (true, ignored os.wait s)
        | fails e ↦ (true, ignored os.wait s)
      ]

  unfoldable pub kill_forks : ℕ → Forks os.World → Bool × Forks os.World
  kill_forks fuel s = wait_all fuel (kill_marked s.list s)

  -- `Fork::~Fork`: an object that stands for a child stays in the list.
  unfoldable pub destroy_fork : Process → Forks os.World → Forks os.World
  destroy_fork p s = elim (child_of p.pid) [ none ↦ destroy_process p s | some n ↦ s ]

  unfoldable pub is_child : Process → Bool
  is_child p = has_pid 0 p.pid

  unfoldable pub is_parent : Process → Bool
  is_parent p = elim (child_of p.pid) [ none ↦ false | some n ↦ true ]

  -- Whether `perror` is called.
  unfoldable pub suicide_signal : ℕ → Forks os.World → Bool × Forks os.World
  suicide_signal signo s =
      let s' = ignored (os.sigaction signo commit_suicide_handler) s in
      elim (os.sigaction signo commit_suicide_handler s.world).0 [
        | done _ ↦ (false, s')
        | fails e ↦ (true, s')
      ]
