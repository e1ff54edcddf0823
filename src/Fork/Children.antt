-- ===== src/Fork/Children.antt =====
-- The list of child processes (socket++/fork.cpp): how it grows, what its signals are, and how it
-- empties.
use cpr.Common.{
  ℕ, ◌≡◌, refl, sym, ap, ◌∙◌, subst, List, [], ◌∷◌, ◌++◌, append_assoc, append-nil, Bool, true,
  false, ◌&&◌, ◌==◌, Bool-cases, inl, inr, Option, none, some, if◌then◌else◌, ==_iff, ltb,
}
use cpr.Os.{Sys, done, fails}
use cpr.Fork.{
  ForkOs, Forks, Process, Status, child_of, unlink, ignored, infanticide_reason, reap_child, reaped,
  destroy_process, destroy_on, kill_unmarked, end_child, end_children, commit_suicide, sigterm,
  sigkill,
}

-- Every object of a list stands for a child.
abbrev pub AreChildren : List Process → Type 0
AreChildren [] = Unit {0}
AreChildren (p ∷ ps) = ((n : ℕ) × (child_of p.pid ≡ some n)) × AreChildren ps

-- The signal for each child of a list, in the list's order.
abbrev pub signal_of : Process → ℕ
signal_of p = if p.kill_child then sigterm else sigkill

abbrev pub number_of : Option ℕ → ℕ
number_of none = 0
number_of (some n) = n

abbrev pub signals_of : List Process → List (ℕ × ℕ)
signals_of [] = []
signals_of (p ∷ ps) = (number_of (child_of p.pid), signal_of p) ∷ signals_of ps

-- What is relied on of the system: `kill` sends one signal, and waiting for a child sends none.
pub record Signals (os : ForkOs) : Type 0 where
  pub sent : os.World → List (ℕ × ℕ)
  pub kill_sends :
      (n signo : ℕ) (w : os.World) → sent (os.kill n signo w).1 ≡ sent w ++ (n, signo) ∷ []
  pub waitpid_keeps : (n : ℕ) (w : os.World) → sent (os.waitpid n w).1 ≡ sent w

unlink-head : (p : Process) (ps : List Process) → unlink p.address (p ∷ ps) ≡ ps
unfolding unlink
unlink-head p ps = rw ((==_iff p.address p.address).1 refl) refl

module _ (os : ForkOs) (signals : Signals os) where
  abbrev pub sent_by : Forks os.World → List (ℕ × ℕ)
  sent_by s = signals.sent s.world

  -- Neither the list nor the signals change.
  abbrev Quiet : Forks os.World → Forks os.World → Type 0
  Quiet s t = (t.list ≡ s.list) × (sent_by t ≡ sent_by s)

  reason-Quiet :
      (n : ℕ) (status : Status) (s : Forks os.World) → Quiet s (infanticide_reason os n status s)
  unfolding infanticide_reason
  reason-Quiet n status s = elim (Bool-cases (ltb 0 n)) [
    | inl b ↦ rw b (refl, refl)
    | inr b ↦ rw b (refl, refl)
  ]

  reaped-Quiet :
      (n : ℕ) (reason : Bool) (s : Forks os.World) (r : Sys (ℕ × Status) × os.World)
      → signals.sent r.1 ≡ sent_by s
      → Quiet s (reaped os n reason s r)
  reaped-Quiet n reason s (done (m, status), w) e = elim (Bool-cases ((m == n) && reason)) [
    | inl b ↦ let (l, q) = reason-Quiet n status (record s { world = w }) in rw b (l, q ∙ e)
    | inr b ↦ rw b (refl, e)
  ]
  reaped-Quiet n reason s (fails c, w) e = (refl, e)

  reap_child-Quiet : (p : Process) (s : Forks os.World) → Quiet s (reap_child os p s)
  unfolding reap_child
  reap_child-Quiet p s = by_pid (child_of p.pid)
    where
      by_pid :
          (o : Option ℕ)
          → Quiet s (elim o [ none ↦ s | some n ↦ reaped os n p.reason s (os.waitpid n s.world) ])
      by_pid none = (refl, refl)
      by_pid (some n) =
          reaped-Quiet n p.reason s (os.waitpid n s.world) (signals.waitpid_keeps n s.world)

  -- The end of one child: one signal, and its object leaves the list.
  abbrev Ends : ℕ → Bool → Process → Forks os.World → Forks os.World → Type 0
  Ends n kill p s t =
      (sent_by t ≡ sent_by s ++ (n, if kill then sigterm else sigkill) ∷ [])
      × (t.list ≡ unlink p.address s.list)

  ended_by :
      (n : ℕ) (kill : Bool) (p : Process) (s : Forks os.World)
      → Ends n kill p s (destroy_on os (some n) kill p (kill_unmarked os (some n) kill s))
  ended_by n true p s =
      let (l, q) = reap_child-Quiet p (ignored os (os.kill n sigterm) s) in
      (q ∙ signals.kill_sends n sigterm s.world, ap (unlink p.address) l)
  ended_by n false p s =
      let (l, q) = reap_child-Quiet p (ignored os (os.kill n sigkill) s) in
      (q ∙ signals.kill_sends n sigkill s.world, ap (unlink p.address) l)

  end_child-signals :
      (p : Process) (n : ℕ) (s : Forks os.World)
      → child_of p.pid ≡ some n
      → Ends n p.kill_child p s (end_child os p s)
  unfolding destroy_process end_child
  end_child-signals p n s e =
      subst
        (λ o.
          Ends n p.kill_child p s
            (destroy_on os o p.kill_child p (kill_unmarked os o p.kill_child s)))
        (sym e) (ended_by n p.kill_child p s)

  end_children-signals :
      (ps : List Process) (s : Forks os.World)
      → AreChildren ps
      → s.list ≡ ps
      → (sent_by (end_children os ps s) ≡ sent_by s ++ signals_of ps)
        × ((end_children os ps s).list ≡ [])
  unfolding end_children
  end_children-signals [] s c e = (sym (append-nil (sent_by s)), e)
  end_children-signals (p ∷ ps) s c e =
      let (n, pid) = c.0 in
      let (sent, left) = end_child-signals p n s pid in
      let (sent', none_left) =
        end_children-signals ps (end_child os p s) c.1
          (left ∙ ap (unlink p.address) e ∙ unlink-head p ps) in
      (
        sent'
            ∙ ap (λ xs. xs ++ signals_of ps) sent
            ∙ append_assoc (sent_by s) ((n, signal_of p) ∷ []) (signals_of ps)
            ∙ ap (λ o. sent_by s ++ (number_of o, signal_of p) ∷ signals_of ps) (sym pid),
        none_left,
      )

  -- If every object of the list stands for a child, `commit_suicide` sends each of them one
  -- signal, in the list's order: `SIGTERM` if its `kill_child` is set and `SIGKILL` if not. Up
  -- to its `exit` it has emptied the list. This is for a system in which `kill` sends one
  -- signal and `waitpid` none.
  pub commit_suicide-ends_all :
      (s : Forks os.World)
      → AreChildren s.list
      → (sent_by (commit_suicide os s) ≡ sent_by s ++ signals_of s.list)
        × ((commit_suicide os s).list ≡ [])
  unfolding commit_suicide
  commit_suicide-ends_all s c = end_children-signals s.list s c refl
