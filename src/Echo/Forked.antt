-- ===== src/Echo/Forked.antt =====
-- The list of children behind the calls of `Fork` that the echo server makes (socket++/echo.cpp,
-- socket++/fork.cpp).
use cpr.Common.{
  ℕ, zero, suc, pos, ◌≡◌, refl, sym, ap, ◌∙◌, subst, List, [], ◌∷◌, Bool, true, false, Bool-cases,
  ◌⊎◌, inl, inr, Option, none, some, arith,
}
use cpr.Os.{Sys, done, fails}
use cpr.Fork.Steps.{reason-list}
use cpr.Fork.{
  ForkOs, Forks, Process, child_of, construct_process, forked, with_reaper, is_null, is_child,
  Status, unlink_pid, find_pid, report, reap_any, reaper_nohang, deliver, destroy_fork,
  destroy_process, destroy_on, suicide_signal, ignored, commit_suicide_handler,
}

module _ (fos : ForkOs) where
  -- How the list of the parent comes about from an earlier one: a child that `fork` has made is put in
  -- front, marked `kill_child`, and only an object whose number `waitpid` has reported is taken out.
  pub data Follows : List Process → List Process → Type 0 where
    same : (ps : List Process) → Follows ps ps
    starts :
        {ps qs : List Process} (p : Process) (n : ℕ) (w : fos.World)
        → (fos.fork w).0 ≡ done (suc n)
        → p.pid ≡ pos (suc n)
        → p.kill_child ≡ true
        → Follows ps qs
        → Follows ps (p ∷ qs)
    reaped :
        {ps qs : List Process} (n : ℕ) (status : Status) (w : fos.World)
        → (fos.wait_any w).0 ≡ done (suc n, status)
        → Follows ps qs
        → Follows ps (unlink_pid (suc n) qs)

  pub Follows-trans : {ps qs rs : List Process} → Follows ps qs → Follows qs rs → Follows ps rs
  Follows-trans f (same _) = f
  Follows-trans f (starts p n w e i k g) = starts p n w e i k (Follows-trans f g)
  Follows-trans f (reaped n status w e g) = reaped n status w e (Follows-trans f g)

  -- The list behind `fork`: in the child it is empty.
  abbrev pub Forked : List Process → Process × Forks fos.World → Type 0
  Forked old (p, f) =
      ((is_child fos p ≡ true) × (f.list ≡ [])) ⊎ ((is_child fos p ≡ false) × Follows old f.list)

  with_reaper-list : (f : Forks fos.World) → (with_reaper fos f).list ≡ f.list
  with_reaper-list f = elim (Bool-cases (is_null f.list)) [ inl b ↦ rw b refl | inr b ↦ rw b refl ]

  forked-Forked :
      (address : ℕ) (f : Forks fos.World) (r : Sys ℕ × fos.World)
      → fos.fork f.world ≡ r
      → Forked f.list (forked fos address true true f r)
  unfolding is_child
  forked-Forked address f (done zero, w) e = inl (refl, refl)
  forked-Forked address f (done (suc n), w) e =
      inr (ground arith, starts _ n f.world (ap (λ r. r.0) e) refl refl (same f.list))
  forked-Forked address f (fails c, w) e = inr (refl, same f.list)

  pub construct_process-Forked :
      (address : ℕ) (f : Forks fos.World)
      → Forked f.list (construct_process fos address true true f)
  unfolding construct_process
  construct_process-Forked address f =
      subst (λ l. Forked l (construct_process fos address true true f)) (with_reaper-list f)
        (forked-Forked address (with_reaper fos f) (fos.fork (with_reaper fos f).world) refl)

  report-list :
      (o : Option Process) (n : ℕ) (status : Status) (f : Forks fos.World)
      → (report fos o n status f).list ≡ f.list
  report-list none n status f = refl
  report-list (some p) n status f = elim (Bool-cases p.reason) [
    | inl b ↦ rw b (reason-list fos n status f)
    | inr b ↦ rw b refl
  ]

  -- The handler of `SIGCHLD` takes out the object that it is told of.
  reap_any-Follows :
      (f : Forks fos.World) (r : Sys (ℕ × Status) × fos.World)
      → fos.wait_any f.world ≡ r
      → Follows f.list (reap_any fos f r).list
  reap_any-Follows f (done (zero, status), w) e = same f.list
  reap_any-Follows f (done (suc n, status), w) e =
      subst (Follows f.list)
        (sym (
          report-list (find_pid (suc n) f.list) (suc n) status
            (record f { list = unlink_pid (suc n) f.list; world = w })))
        (reaped n status f.world (ap (λ r. r.0) e) (same f.list))
  reap_any-Follows f (fails c, w) e = same f.list

  pub deliver-Follows :
      (times : ℕ) (old : List Process) (f : Forks fos.World)
      → Follows old f.list
      → Follows old (deliver fos times f).list
  unfolding deliver reaper_nohang
  deliver-Follows zero old f h = h
  deliver-Follows (suc times) old f h =
      deliver-Follows times old _ (Follows-trans h (reap_any-Follows f (fos.wait_any f.world) refl))

  reap_any-empty :
      (f : Forks fos.World) (r : Sys (ℕ × Status) × fos.World)
      → f.list ≡ []
      → (reap_any fos f r).list ≡ []
  unfolding unlink_pid
  reap_any-empty f (done (zero, status), w) e = e
  reap_any-empty f (done (suc n, status), w) e =
      report-list (find_pid (suc n) f.list) (suc n) status _ ∙ ap (unlink_pid (suc n)) e
  reap_any-empty f (fails c, w) e = e

  pub deliver-empty :
      (times : ℕ) (f : Forks fos.World) → f.list ≡ [] → (deliver fos times f).list ≡ []
  unfolding deliver reaper_nohang
  deliver-empty zero f e = e
  deliver-empty (suc times) f e = deliver-empty times _ (reap_any-empty f (fos.wait_any f.world) e)

  pub destroy_fork-same : (p : Process) (f : Forks fos.World) → destroy_fork fos p f ≡ f
  unfolding destroy_fork destroy_process
  destroy_fork-same p f = by_pid (child_of p.pid) refl
    where
      by_pid : (o : Option ℕ) → child_of p.pid ≡ o → destroy_fork fos p f ≡ f
      by_pid none e = rw (e, destroy_fork) (ap (λ o. destroy_on fos o p.kill_child p f) e)
      by_pid (some n) e = rw (e, destroy_fork) refl

  pub suicide_signal-list :
      (signo : ℕ) (f : Forks fos.World) → (suicide_signal fos signo f).1.list ≡ f.list
  unfolding suicide_signal
  suicide_signal-list signo f = by_result (fos.sigaction signo commit_suicide_handler f.world).0
    where
      f' : Forks fos.World
      f' = ignored fos (fos.sigaction signo commit_suicide_handler) f

      by_result :
          (r : Sys (Unit {0}))
          → (elim r as (λ _. Bool × Forks fos.World) [
            | done _ ↦ (false, f')
            | fails e ↦ (true, f')
          ]).1.list
            ≡ f.list
      by_result (done _) = refl
      by_result (fails e) = refl
