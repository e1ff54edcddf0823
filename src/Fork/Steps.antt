-- ===== src/Fork/Steps.antt =====
-- The operations on child processes as steps (socket++/fork.cpp): in every state that the program can
-- reach, the objects of the list stand for children.
use cpr.Common.{
  ℕ, zero, suc, ◌≡◌, refl, sym, subst, List, [], ◌∷◌, Bool, true, false, ◌&&◌, ◌==◌, ltb,
  if◌then◌else◌, Bool-cases, inl, inr, Option, none, some,
}
use cpr.Os.{Sys, done, fails}
use cpr.Fork.{
  ForkOs, Forks, Process, Status, child_of, unlink, ignored, infanticide_reason, reap_child, reaped,
  destroy_process, destroy_on, kill_unmarked, kill_process, end_child, end_children, commit_suicide,
  construct_process, forked, with_reaper, reaper_nohang, reap_any, report, find_pid, unlink_pid,
  has_pid, sigterm, sigkill, sigchld, kill_forks, kill_marked, wait_all, is_null,
}
use cpr.Fork.Children.{AreChildren}

unlink-AreChildren : (a : ℕ) (ps : List Process) → AreChildren ps → AreChildren (unlink a ps)
unfolding unlink
unlink-AreChildren a [] c = tt
unlink-AreChildren a (p ∷ ps) c = elim (Bool-cases (p.address == a)) [
  | inl b ↦ rw b c.1
  | inr b ↦ rw b (c.0, unlink-AreChildren a ps c.1)
]

unlink_pid-AreChildren :
    (n : ℕ) (ps : List Process) → AreChildren ps → AreChildren (unlink_pid n ps)
unfolding unlink_pid
unlink_pid-AreChildren n [] c = tt
unlink_pid-AreChildren n (p ∷ ps) c = elim (Bool-cases (has_pid n p.pid)) [
  | inl b ↦ rw b c.1
  | inr b ↦ rw b (c.0, unlink_pid-AreChildren n ps c.1)
]

module _ (os : ForkOs) where
  abbrev pub IsWell : Forks os.World → Type 0
  IsWell s = AreChildren s.list

  -- Every call of an operation, in any order; a signal handler is one of them.
  pub data Step : Forks os.World → Forks os.World → Type 0 where
    constructs :
        (address : ℕ) (kill reason : Bool) (s : Forks os.World)
        → Step s (construct_process os address kill reason s).1
    destroys : (p : Process) (s : Forks os.World) → Step s (destroy_process os p s)
    kills : (p : Process) (s : Forks os.World) → Step s (kill_process os p s)
    reaps : (signo : ℕ) (s : Forks os.World) → Step s (reaper_nohang os signo s)
    suicides : (s : Forks os.World) → Step s (commit_suicide os s)
    ends : (fuel : ℕ) (s : Forks os.World) → Step s (kill_forks os fuel s).1

  -- The states that the program reaches from an empty list.
  pub data Reachable : Forks os.World → Type 0 where
    begins : (w : os.World) → Reachable (record { list = []; cerr = []; world = w })
    continues : {s t : Forks os.World} → Reachable s → Step s t → Reachable t

  pub reason-list :
      (n : ℕ) (status : Status) (s : Forks os.World)
      → (infanticide_reason os n status s).list ≡ s.list
  unfolding infanticide_reason
  reason-list n status s = elim (Bool-cases (ltb 0 n)) [ inl b ↦ rw b refl | inr b ↦ rw b refl ]

  reaped-list :
      (n : ℕ) (reason : Bool) (s : Forks os.World) (r : Sys (ℕ × Status) × os.World)
      → (reaped os n reason s r).list ≡ s.list
  reaped-list n reason s (done (m, status), w) = elim (Bool-cases ((m == n) && reason)) [
    | inl b ↦ rw b (reason-list n status (record s { world = w }))
    | inr b ↦ rw b refl
  ]
  reaped-list n reason s (fails c, w) = refl

  reap_child-list : (p : Process) (s : Forks os.World) → (reap_child os p s).list ≡ s.list
  unfolding reap_child
  reap_child-list p s = by_pid (child_of p.pid)
    where
      by_pid :
          (o : Option ℕ)
          → (elim o as (λ _. Forks os.World) [
            | none ↦ s
            | some n ↦ reaped os n p.reason s (os.waitpid n s.world)
          ]).list
            ≡ s.list
      by_pid none = refl
      by_pid (some n) = reaped-list n p.reason s (os.waitpid n s.world)

  destroy_on-IsWell :
      (o : Option ℕ) (kill : Bool) (p : Process) (s : Forks os.World)
      → IsWell s
      → IsWell (destroy_on os o kill p s)
  destroy_on-IsWell none kill p s v = v
  destroy_on-IsWell (some n) true p s v =
      unlink-AreChildren p.address _
        (subst AreChildren (sym (reap_child-list p (ignored os (os.kill n sigterm) s))) v)
  destroy_on-IsWell (some n) false p s v =
      unlink-AreChildren p.address _ (subst AreChildren (sym (reap_child-list p s)) v)

  destroy_process-IsWell :
      (p : Process) (s : Forks os.World) → IsWell s → IsWell (destroy_process os p s)
  unfolding destroy_process
  destroy_process-IsWell p s v = destroy_on-IsWell (child_of p.pid) p.kill_child p s v

  kill_process-IsWell : (p : Process) (s : Forks os.World) → IsWell s → IsWell (kill_process os p s)
  unfolding kill_process
  kill_process-IsWell p s v = by_pid (child_of p.pid)
    where
      by_pid :
          (o : Option ℕ)
          → IsWell
              (elim o [ none ↦ s | some n ↦ reap_child os p (ignored os (os.kill n sigkill) s) ])
      by_pid none = v
      by_pid (some n) =
          subst AreChildren (sym (reap_child-list p (ignored os (os.kill n sigkill) s))) v

  unmarked_IsWell :
      (o : Option ℕ) (kill : Bool) (s : Forks os.World)
      → IsWell s
      → IsWell (kill_unmarked os o kill s)
  unmarked_IsWell none kill s v = v
  unmarked_IsWell (some n) true s v = v
  unmarked_IsWell (some n) false s v = v

  end_children-IsWell :
      (ps : List Process) (s : Forks os.World) → IsWell s → IsWell (end_children os ps s)
  unfolding end_children end_child
  end_children-IsWell [] s v = v
  end_children-IsWell (p ∷ ps) s v =
      end_children-IsWell ps _
        (destroy_process-IsWell p _ (unmarked_IsWell (child_of p.pid) p.kill_child s v))

  forked-IsWell :
      (address : ℕ) (kill reason : Bool) (s : Forks os.World) (r : Sys ℕ × os.World)
      → IsWell s
      → IsWell (forked os address kill reason s r).1
  forked-IsWell address true reason s (done zero, w) v = tt
  forked-IsWell address false reason s (done zero, w) v = tt
  forked-IsWell address kill reason s (done (suc n), w) v = ((suc n, refl), v)
  forked-IsWell address kill reason s (fails e, w) v = v

  with_reaper-list : (s : Forks os.World) → (with_reaper os s).list ≡ s.list
  with_reaper-list s = elim (Bool-cases (is_null s.list)) [ inl b ↦ rw b refl | inr b ↦ rw b refl ]

  report-list :
      (o : Option Process) (n : ℕ) (status : Status) (s : Forks os.World)
      → (report os o n status s).list ≡ s.list
  report-list none n status s = refl
  report-list (some p) n status s = elim (Bool-cases p.reason) [
    | inl b ↦ rw b (reason-list n status s)
    | inr b ↦ rw b refl
  ]

  reap_any-IsWell :
      (s : Forks os.World) (r : Sys (ℕ × Status) × os.World) → IsWell s → IsWell (reap_any os s r)
  reap_any-IsWell s (done (zero, status), w) v = v
  reap_any-IsWell s (done (suc n, status), w) v =
      subst AreChildren (sym (report-list (find_pid (suc n) s.list) (suc n) status _))
        (unlink_pid-AreChildren (suc n) s.list v)
  reap_any-IsWell s (fails e, w) v = v

  kill_marked-IsWell :
      (ps : List Process) (s : Forks os.World) → IsWell s → IsWell (kill_marked os ps s)
  unfolding kill_marked
  kill_marked-IsWell [] s v = v
  kill_marked-IsWell (p ∷ ps) s v = kill_marked-IsWell ps _ (marked p.kill_child)
    where
      marked : (b : Bool) → IsWell (if b then destroy_process os p s else s)
      marked true = destroy_process-IsWell p s v
      marked false = v

  waited_list :
      (r : Sys ℕ) (again : Bool × Forks os.World) (s : Forks os.World)
      → again.1.list ≡ s.list
      → (elim r as (λ _. Bool × Forks os.World) [
        | done n ↦ if ltb 0 n then again else (true, ignored os os.wait s)
        | fails e ↦ (true, ignored os os.wait s)
      ]).1.list
        ≡ s.list
  waited_list (done n) again s e = elim (Bool-cases (ltb 0 n)) [
    | inl b ↦ rw b e
    | inr b ↦ rw b refl
  ]
  waited_list (fails c) again s e = refl

  wait_all-list : (fuel : ℕ) (s : Forks os.World) → (wait_all os fuel s).1.list ≡ s.list
  unfolding wait_all
  wait_all-list zero s = refl
  wait_all-list (suc fuel) s = elim (Bool-cases (is_null s.list)) [
    | inl b ↦ rw b refl
    | inr b ↦ rw b (
        waited_list (os.wait s.world).0 (wait_all os fuel (ignored os os.wait s)) s
          (wait_all-list fuel (ignored os os.wait s)))
  ]

  Step-IsWell : (s t : Forks os.World) → Step s t → IsWell s → IsWell t
  unfolding construct_process reaper_nohang commit_suicide kill_forks
  Step-IsWell s t (constructs address kill reason s') v =
      forked-IsWell address kill reason (with_reaper os s) _
        (subst AreChildren (sym (with_reaper-list s)) v)
  Step-IsWell s t (destroys p s') v = destroy_process-IsWell p s v
  Step-IsWell s t (kills p s') v = kill_process-IsWell p s v
  Step-IsWell s t (reaps signo s') v = elim (Bool-cases (signo == sigchld)) [
    | inl b ↦ rw b (reap_any-IsWell s (os.wait_any s.world) v)
    | inr b ↦ rw b v
  ]
  Step-IsWell s t (suicides s') v = end_children-IsWell s.list s v
  Step-IsWell s t (ends fuel s') v =
      subst AreChildren (sym (wait_all-list fuel (kill_marked os s.list s)))
        (kill_marked-IsWell s.list s v)

  -- In every state that the program reaches from an empty list by constructing and destroying
  -- objects, killing and reaping children, `commit_suicide` and the end of the program, in any
  -- order, each object of the list stands for a child, with a `pid` above 0.
  pub Reachable-IsWell : (s : Forks os.World) → Reachable s → IsWell s
  Reachable-IsWell s (begins w) = tt
  Reachable-IsWell t (continues {s} r step) = Step-IsWell s t step (Reachable-IsWell s r)
