-- ===== src/Sig/Calls.antt =====
-- What the system calls of `sig` (socket++/sig.cpp) keep: no handler is listed twice, and a signal that
-- has handlers has `sighandler` as its action.
use cpr.Common.{
  ℕ, ◌≡◌, refl, sym, ◌∙◌, subst, List, [], ◌==◌, String, Result, ok, thrown, running, Action,
  Bool-cases, ==_iff, ◌⊎◌, inl, inr, follow,
}
use cpr.Os.{Sys, done, fails, Call}
use cpr.Sig.{Sig, SigOs, SigAction, Disposition, sighandler, checked, ours}
use cpr.Sig.Lists.{IsWell}
use cpr.Sig.Laws.{Actions, KeepsActions, Reads, Replaces, SameActions, last-checked}

module _ (os : SigOs) (laws : Actions os) where
  -- A signal has no handlers, or its action calls them.
  abbrev pub IsHandled : (ℕ → List ℕ) → os.World → ℕ → Type 0
  IsHandled smap w n = (smap n ≡ []) ⊎ (laws.action w n ≡ sighandler)

  pub record IsReady (s : Sig os.World) : Type 0 where
    pub well : IsWell s
    pub handled : (n : ℕ) → IsHandled s.smap s.world n

  -- A block of calls keeps this whether it returns or throws; what it returns is as `Q` says.
  abbrev pub Keeps : {A : Type 0} → (A → Type 0) → Result A × Sig os.World → Type 0
  Keeps Q (ok a, t) = Q a × IsReady t
  Keeps Q (thrown e, t) = IsReady t
  Keeps Q (running, t) = IsReady t

  abbrev pub Any : {A : Type 0} → A → Type 0
  Any a = Unit {0}

  pub follow-Keeps :
      {A B : Type 0} (Q : A → Type 0) (R : B → Type 0) (k : A → Action (Sig os.World) B)
      (r : Result A × Sig os.World)
      → Keeps Q r
      → ((a : A) (t : Sig os.World) → Q a → IsReady t → Keeps R (k a t))
      → Keeps R (follow k r)
  follow-Keeps Q R k (ok a, t) (q, v) h = h a t q v
  follow-Keeps Q R k (thrown e, t) v h = v
  follow-Keeps Q R k (running, t) v h = v

  pub same-IsReady :
      (s : Sig os.World) (w : os.World) (e : ℕ)
      → IsReady s
      → SameActions laws.action s.world w
      → IsReady (record s { world = w; errno = e })
  same-IsReady s w e v same = record {
    well = v.well;
    handled = λ n. elim (v.handled n) [ inl z ↦ inl z | inr a ↦ inr (same n ∙ a) ];
  }

  -- A call that leaves the actions alone.
  pub checked-Keeps :
      {A : Type 0} (operation : String) (spec : List ℕ) (f : Call os.World A) (s : Sig os.World)
      → IsReady s
      → KeepsActions laws.action s.world (f s.world)
      → Keeps Any (checked os operation spec f s)
  checked-Keeps operation spec f s v k =
      last-checked os (Keeps Any) operation spec f s
        (λ a w e. (tt, same-IsReady s w s.errno v (subst (KeepsActions laws.action s.world) e k)))
        (λ c w e. same-IsReady s w c v (subst (KeepsActions laws.action s.world) e k))

  get-Keeps :
      (signo : ℕ) (w : os.World)
      → (r : Sys (SigAction os) × os.World) → Reads laws.action signo w r
      → KeepsActions laws.action w r
  get-Keeps signo w (done a, w') q = q.1
  get-Keeps signo w (fails e, w') q = q

  pub action_get_keeps :
      (signo : ℕ) (w : os.World) → KeepsActions laws.action w (os.sigaction_get signo w)
  action_get_keeps signo w = get-Keeps signo w (os.sigaction_get signo w) (laws.get_reads signo w)

  pub action_get-Keeps :
      (operation : String) (signo : ℕ) (s : Sig os.World)
      → IsReady s
      → Keeps Any (checked os operation [] (os.sigaction_get signo) s)
  action_get-Keeps operation signo s v =
      checked-Keeps operation [] (os.sigaction_get signo) s v (action_get_keeps signo s.world)

  replaced-IsReady :
      (signo : ℕ) (d : Disposition) (s : Sig os.World) (w : os.World)
      → IsReady s
      → (s.smap signo ≡ []) ⊎ (d ≡ sighandler)
      → Replaces laws.action signo d s.world (done tt, w)
      → IsReady (record s { world = w })
  replaced-IsReady signo d s w v this (here, others) = record {
    well = v.well;
    handled = λ n. elim (Bool-cases (n == signo)) [
      | inl b ↦
          subst (IsHandled s.smap w) (sym ((==_iff n signo).0 b))
            (elim this [ inl z ↦ inl z | inr e ↦ inr (here ∙ e) ])
      | inr b ↦ elim (v.handled n) [ inl z ↦ inl z | inr a ↦ inr (others n b ∙ a) ]
    ];
  }

  -- `sigaction` on a signal without handlers, or with `sighandler`.
  pub action_set-Keeps :
      (operation : String) (spec : List ℕ) (signo : ℕ) (sa : SigAction os) (s : Sig os.World)
      → IsReady s
      → (s.smap signo ≡ []) ⊎ (sa.0 ≡ sighandler)
      → Keeps Any (checked os operation spec (os.sigaction_set signo sa) s)
  action_set-Keeps operation spec signo sa s v this =
      last-checked os (Keeps Any) operation spec (os.sigaction_set signo sa) s
        (λ _ w e. (
          tt,
          replaced-IsReady signo sa.0 s w v this (
              subst (Replaces laws.action signo sa.0 s.world) e
                (laws.set_replaces signo sa s.world)),
        ))
        (λ c w e.
          same-IsReady s w c v (
            subst (Replaces laws.action signo sa.0 s.world) e (laws.set_replaces signo sa s.world)))

  abbrev pub IsOurs : SigAction os → Type 0
  IsOurs sa = sa.0 ≡ sighandler

  pub ours-Keeps :
      (operation : String) (sa : SigAction os) (s : Sig os.World)
      → IsReady s
      → Keeps IsOurs (ours os operation sa s)
  ours-Keeps operation sa s v =
      follow-Keeps Any IsOurs _ _
        (checked-Keeps operation [] (os.sigemptyset sa.1.0) s v (laws.empty_keeps sa.1.0 s.world))
        (λ empty t _ u. (refl, u))
