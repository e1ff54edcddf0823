-- ===== src/Fork/Reaping.antt =====
-- The handler of `SIGCHLD` (socket++/fork.cpp): which object it takes out of the list of children, and
-- what it reports.
use cpr.Common.{
  ℕ, suc, zero, pos, negsuc, ℤ, ◌≡◌, ◌≢◌, refl, sym, ap, List, [], ◌∷◌, ◌++◌, append-nil, true,
  false, ◌==◌, Bool-cases, ◌⊎◌, inl, inr, none, some, if◌then◌else◌, ==_iff, ltb, arith,
}
use cpr.Os.{Sys, done, fails}
use cpr.Fork.{
  ForkOs, Forks, Process, Status, has_pid, find_pid, unlink_pid, reason_text, infanticide_reason,
  report, reap_any, reaper_nohang, sigchld,
}

-- No object of a list stands for the child `n`.
abbrev pub LacksPid : ℕ → List Process → Type 0
LacksPid n [] = Unit {0}
LacksPid n (p ∷ ps) = (p.pid ≢ pos n) × LacksPid n ps

has_pid_lem : (n : ℕ) (z : ℤ) → has_pid n z ≡ true → z ≡ pos n
has_pid_lem n (pos m) e = ap pos ((==_iff m n).0 e)
has_pid_lem n (negsuc m) e = absurd (cc e)

not_has_pid : (n : ℕ) (z : ℤ) → has_pid n z ≡ false → z ≢ pos n
not_has_pid n (pos m) e =
    λ q. let same : m ≡ n = cc q in let b = (==_iff m n).1 same in absurd (cc (e, b))
not_has_pid n (negsuc m) e = λ q. absurd (cc q)

-- The object of the child `n` that stands first in a list: what is before it and behind it.
abbrev pub FirstOf : ℕ → List Process → List Process → Process → List Process → Type 0
FirstOf n ps xs p ys = (ps ≡ xs ++ p ∷ ys) × LacksPid n xs × (p.pid ≡ pos n)

abbrev Unlinks : ℕ → List Process → Type 0
Unlinks n ps =
    (LacksPid n ps × (find_pid n ps ≡ none) × (unlink_pid n ps ≡ ps))
    ⊎ ((xs : List Process) × (p : Process) × (ys : List Process) × FirstOf n ps xs p ys
        × (find_pid n ps ≡ some p)
        × (unlink_pid n ps ≡ xs ++ ys))

past-Unlinks :
    (n : ℕ) (p : Process) (ps : List Process)
    → has_pid n p.pid ≡ false
    → Unlinks n ps
    → Unlinks n (p ∷ ps)
unfolding find_pid unlink_pid
past-Unlinks n p ps b (inl (lacks, f, u)) =
    rw b (inl ((not_has_pid n p.pid b, lacks), f, ap (λ xs. p ∷ xs) u))
past-Unlinks n p ps b (inr (xs, o, ys, (split, lacks, at), f, u)) = rw b (
    inr (
      p ∷ xs,
      o,
      ys,
      (ap (λ zs. p ∷ zs) split, (not_has_pid n p.pid b, lacks), at),
      f,
      ap (λ zs. p ∷ zs) u,
    ))

unlink_pid-Unlinks : (n : ℕ) (ps : List Process) → Unlinks n ps
unfolding find_pid unlink_pid
unlink_pid-Unlinks n [] = inl (tt, refl, refl)
unlink_pid-Unlinks n (p ∷ ps) = elim (Bool-cases (has_pid n p.pid)) [
  | inl b ↦ rw b (inr ([], p, ps, (refl, tt, has_pid_lem n p.pid b), refl, refl))
  | inr b ↦ past-Unlinks n p ps b (unlink_pid-Unlinks n ps)
]

module _ (os : ForkOs) where
  -- What goes to `cerr` on the end of the child `n`.
  abbrev pub reported : Process → ℕ → Status → List ℕ
  reported p n status = if p.reason then reason_text os n status else []

  abbrev pub SameList : Forks os.World → Forks os.World → Type 0
  SameList s t = (t.list ≡ s.list) × (t.cerr ≡ s.cerr)

  -- The list and `cerr` behind the handler, by what `waitpid` has returned.
  abbrev pub Reaps : Forks os.World → Sys (ℕ × Status) → Forks os.World → Type 0
  Reaps s (done (zero, status)) t = SameList s t
  Reaps s (done (suc n, status)) t =
      (LacksPid (suc n) s.list × SameList s t)
      ⊎ ((xs : List Process) × (p : Process) × (ys : List Process) × FirstOf (suc n) s.list xs p ys
          × (t.list ≡ xs ++ ys)
          × (t.cerr ≡ s.cerr ++ reported p (suc n) status))
  Reaps s (fails e) t = SameList s t

  -- What `report` does with an object.
  report_lem :
      (p : Process) (n : ℕ) (status : Status) (s : Forks os.World)
      → report os (some p) (suc n) status s
        ≡ record s { cerr = s.cerr ++ reported p (suc n) status }
  unfolding infanticide_reason
  report_lem p n status s = elim (Bool-cases p.reason) [
    | inl b ↦ let is_child : ltb 0 (suc n) ≡ true = ground arith in rw (b, is_child) refl
    | inr b ↦ rw b (ap (λ xs. record s { cerr = xs }) (sym (append-nil s.cerr)))
  ]

  -- The handler with a child that has ended.
  ended-Reaps :
      (n : ℕ) (status : Status) (s : Forks os.World) (w : os.World)
      → Unlinks (suc n) s.list
      → Reaps s (done (suc n, status)) (reap_any os s (done (suc n, status), w))
        × ((reap_any os s (done (suc n, status), w)).world ≡ w)
  ended-Reaps n status s w (inl (lacks, f, u)) = rw f (inl (lacks, (u, refl)), refl)
  ended-Reaps n status s w (inr (xs, p, ys, first, f, u)) =
      rw (f, report_lem p n status) (inr (xs, p, ys, first, u, refl), refl)

  -- The handler with what `waitpid` has returned.
  reap_any-Reaps :
      (s : Forks os.World) (r : Sys (ℕ × Status) × os.World)
      → Reaps s r.0 (reap_any os s r) × ((reap_any os s r).world ≡ r.1)
  reap_any-Reaps s (done (zero, status), w) = ((refl, refl), refl)
  reap_any-Reaps s (fails e, w) = ((refl, refl), refl)
  reap_any-Reaps s (done (suc n, status), w) =
      ended-Reaps n status s w (unlink_pid-Unlinks (suc n) s.list)

  -- `reaper_nohang`, on another signal than `SIGCHLD`, changes nothing. On `SIGCHLD` it calls
  -- `waitpid` once. If that reports the end of a child, the first object of the list with this
  -- `pid` is taken out, the others stay in their order, and if the object's `reason` is set
  -- `cerr` gets the text for the child's status; if no object has the `pid`, or `waitpid`
  -- reports no child or fails, the list and `cerr` are as before.
  pub reaper_nohang-Reaps :
      (signo : ℕ) (s : Forks os.World)
      → (signo ≢ sigchld → reaper_nohang os signo s ≡ s)
        × Reaps s (os.wait_any s.world).0 (reaper_nohang os sigchld s)
        × ((reaper_nohang os sigchld s).world ≡ (os.wait_any s.world).1)
  unfolding reaper_nohang
  reaper_nohang-Reaps signo s =
      let (reaps, w) = reap_any-Reaps s (os.wait_any s.world) in (other, reaps, w)
    where
      other : signo ≢ sigchld → reaper_nohang os signo s ≡ s
      other ne = elim (Bool-cases (signo == sigchld)) [
        | inl b ↦ absurd (ne ((==_iff signo sigchld).0 b))
        | inr b ↦ rw b refl
      ]
