-- ===== src/Sig/Kept.antt =====
-- That the operations of `sig` (socket++/sig.cpp) on the actions of signals keep them calling the
-- handlers.
use cpr.Common.{
  ℕ, ◌≡◌, refl, sym, ◌∙◌, subst, List, [], Bool, not, ◌==◌, String, Result, ok, thrown, running,
  Action, Bool-cases, ==_iff, ◌⊎◌, inl, inr, follow, codes, pure, ◌>>=◌, if◌then◌else◌,
}
use cpr.Os.{Sys}
use cpr.Sig.{
  Sig, SigOs, SigAction, sig_dfl, sighandler, is_ours, checked, ours, update, install, unbind,
  mask_in, unmask_in, sysresume, with_interrupt, change_mask,
}
use cpr.Sig.Lists.{update-Nodup, update-same, update-other}
use cpr.Sig.Laws.{Actions, KeepsActions, ours-sighandler, follow-checked}
use cpr.Sig.Calls.{
  IsHandled, IsReady, Keeps, Any, IsOurs, follow-Keeps, same-IsReady, checked-Keeps,
  action_get-Keeps, action_set-Keeps, ours-Keeps, action_get_keeps,
}

module _ (os : SigOs) (laws : Actions os) where
  pub Keeps-IsReady :
      {A : Type 0} (Q : A → Type 0) (r : Result A × Sig os.World)
      → Keeps os laws Q r
      → IsReady os laws r.1
  Keeps-IsReady Q (ok a, t) (q, v) = v
  Keeps-IsReady Q (thrown e, t) v = v
  Keeps-IsReady Q (running, t) v = v

  -- A signal whose action is `sighandler`, or that has no handlers left.
  pub update-IsHandled :
      (s : Sig os.World) (signo : ℕ) (hs : List ℕ) (w : os.World)
      → ((n : ℕ) → IsHandled os laws s.smap w n)
      → (hs ≡ []) ⊎ (laws.action w signo ≡ sighandler)
      → (n : ℕ) → IsHandled os laws (update s.smap signo hs) w n
  update-IsHandled s signo hs w v this n = elim (Bool-cases (n == signo)) [
    | inl b ↦
        subst (IsHandled os laws (update s.smap signo hs) w) (sym ((==_iff n signo).0 b))
          (elim this [ inl z ↦ inl (update-same s.smap signo hs ∙ z) | inr a ↦ inr a ])
    | inr b ↦ elim (v n) [ inl z ↦ inl (update-other s.smap signo n hs b ∙ z) | inr a ↦ inr a ]
  ]

  pub install-Keeps :
      (signo : ℕ) (s : Sig os.World)
      → IsReady os laws s
      → Keeps os laws (Any os laws) (install os signo s)
  unfolding install
  install-Keeps signo s v =
      follow-Keeps os laws (Any os laws) (Any os laws) _ _
        (action_get-Keeps os laws "sig::set" signo s v)
        (λ sa t _ u. elim (Bool-cases (is_ours sa.0)) [
          | inl b ↦ rw b (tt, u)
          | inr b ↦ rw b (
              follow-Keeps os laws (Any os laws) (Any os laws) _ _
                (checked-Keeps os laws "sig::set" (codes "sigemptyset() call failed")
                  (os.sigemptyset sa.1.0) t u (laws.empty_keeps sa.1.0 t.world))
                (λ x t' _ u'.
                  action_set-Keeps os laws "sig::set" (codes "sigaction() call failed") signo
                    (sighandler, (x, 0)) t' u' (inr refl)))
        ])

  -- `if (sa.sa_handler != sighandler) …`, in `mask (siga, sigb)` and `sysresume`.
  made_ours-Keeps :
      (operation : String) (sa : SigAction os) (s : Sig os.World)
      → IsReady os laws s
      → Keeps os laws (IsOurs os laws) ((if is_ours sa.0 then pure sa else ours os operation sa) s)
  made_ours-Keeps operation sa s v = elim (Bool-cases (is_ours sa.0)) [
    | inl b ↦ rw b (ours-sighandler sa.0 b, v)
    | inr b ↦ rw b (ours-Keeps os laws operation sa s v)
  ]

  pub mask_in-Keeps :
      (siga sigb : ℕ) (s : Sig os.World)
      → IsReady os laws s
      → Keeps os laws (Any os laws) (mask_in os siga sigb s)
  unfolding mask_in
  mask_in-Keeps siga sigb s v =
      follow-Keeps os laws (Any os laws) (Any os laws) _ _
        (action_get-Keeps os laws "sig::mask" siga s v)
        (λ old t _ u.
          follow-Keeps os laws (IsOurs os laws) (Any os laws) _ _
            (made_ours-Keeps "sig::mask" old t u)
            (λ sa t' o u'.
              follow-Keeps os laws (Any os laws) (Any os laws) _ _
                (checked-Keeps os laws "sig::mask" [] (os.sigaddset sa.1.0 sigb) t' u'
                  (laws.add_keeps sa.1.0 sigb t'.world))
                (λ x t'' _ u''.
                  action_set-Keeps os laws "sig::mask" [] siga (sa.0, (x, sa.1.1)) t'' u''
                    (inr o))))

  pub sysresume-Keeps :
      (signo : ℕ) (resume : Bool) (s : Sig os.World)
      → IsReady os laws s
      → Keeps os laws (Any os laws) (sysresume os signo resume s)
  unfolding sysresume
  sysresume-Keeps signo resume s v =
      follow-Keeps os laws (Any os laws) (Any os laws) _ _
        (action_get-Keeps os laws "sig::sysresume" signo s v)
        (λ old t _ u.
          follow-Keeps os laws (IsOurs os laws) (Any os laws) _ _
            (made_ours-Keeps "sig::sysresume" old t u)
            (λ sa t' o u'.
              action_set-Keeps os laws "sig::sysresume" [] signo
                (sa.0, (sa.1.0, with_interrupt (not resume) sa.1.1)) t' u' (inr o)))

  pub unmask_in-Keeps :
      (siga sigb : ℕ) (s : Sig os.World)
      → IsReady os laws s
      → Keeps os laws (Any os laws) (unmask_in os siga sigb s)
  unfolding unmask_in
  unmask_in-Keeps siga sigb s v =
      follow-Keeps os laws (Any os laws) (Any os laws) _ _
        (action_get-Keeps os laws "sig::unmask" siga s v)
        (λ old t _ u.
          follow-Keeps os laws (IsOurs os laws) (Any os laws) _ _ (made old t u)
            (λ sa t' o u'. action_set-Keeps os laws "sig::unmask" [] siga sa t' u' (inr o)))
    where
      made :
          (old : SigAction os) (t : Sig os.World)
          → IsReady os laws t
          → Keeps os laws (IsOurs os laws) (
              (if is_ours old.0
                  then (do
                    x ← checked os "sig::unmask" [] (os.sigdelset old.1.0 sigb)
                    pure (old.0, (x, old.1.1)))
                  else ours os "sig::unmask" old)
                t)
      made old t u = elim (Bool-cases (is_ours old.0)) [
        | inl b ↦ rw b (
            follow-Keeps os laws (Any os laws) (IsOurs os laws) _ _
              (checked-Keeps os laws "sig::unmask" [] (os.sigdelset old.1.0 sigb) t u
                (laws.del_keeps old.1.0 sigb t.world))
              (λ x t' _ u'. (ours-sighandler old.0 b, u')))
        | inr b ↦ rw b (ours-Keeps os laws "sig::unmask" old t u)
      ]

  pub change_mask-Keeps :
      (operation : String) (block : Bool) (uninit : os.SigSet) (signo : ℕ) (s : Sig os.World)
      → IsReady os laws s
      → Keeps os laws (Any os laws) (change_mask os operation block uninit signo s)
  change_mask-Keeps operation block uninit signo s v =
      follow-Keeps os laws (Any os laws) (Any os laws) _ _
        (checked-Keeps os laws operation [] (os.sigemptyset uninit) s v
          (laws.empty_keeps uninit s.world))
        (λ x t _ u.
          follow-Keeps os laws (Any os laws) (Any os laws) _ _
            (checked-Keeps os laws operation [] (os.sigaddset x signo) t u
              (laws.add_keeps x signo t.world))
            (λ y t' _ u'.
              checked-Keeps os laws operation [] (os.sigprocmask block y) t' u'
                (laws.procmask_keeps block y t'.world)))

  -- `unbind` once the list is empty.
  cleared-IsReady :
      (signo : ℕ) (s : Sig os.World)
      → IsReady os laws s
      → IsReady os laws (record s { smap = update s.smap signo [] })
  cleared-IsReady signo s v = record {
    well = update-Nodup s.smap signo [] v.well tt;
    handled = update-IsHandled s signo [] s.world v.handled (inl refl);
  }

  pub unbind-Keeps :
      (signo : ℕ) (s : Sig os.World)
      → IsReady os laws s
      → Keeps os laws (Any os laws) (unbind os signo s)
  unfolding unbind
  unbind-Keeps signo s v =
      Kept-cleared (record s { smap = update s.smap signo [] }) (cleared-IsReady signo s v)
        (update-same s.smap signo [])
    where
      reset : SigAction os → Action (Sig os.World) (Unit {0})
      reset sa = do
        x ← checked os "sig::unbind" [] (os.sigemptyset sa.1.0)
        checked os "sig::unbind" [] (os.sigaction_set signo (sig_dfl, (x, 0)))

      reset-Keeps :
          (sa : SigAction os) (t : Sig os.World)
          → IsReady os laws t
          → t.smap signo ≡ []
          → Keeps os laws (Any os laws) (reset sa t)
      reset-Keeps sa t u z =
          follow-checked os (Keeps os laws (Any os laws)) "sig::unbind" [] (os.sigemptyset sa.1.0) _
            t
            (λ x w e.
              action_set-Keeps os laws "sig::unbind" [] signo (sig_dfl, (x, 0))
                (record t { world = w })
                (same-IsReady os laws t w t.errno u
                  (subst (KeepsActions laws.action t.world) e (laws.empty_keeps sa.1.0 t.world)))
                (inl z))
            (λ c w e.
              same-IsReady os laws t w c u
                (subst (KeepsActions laws.action t.world) e (laws.empty_keeps sa.1.0 t.world)))

      Kept-cleared :
          (t : Sig os.World)
          → IsReady os laws t
          → t.smap signo ≡ []
          → Keeps os laws (Any os laws) (
              follow
                (λ sa. if is_ours sa.0 then reset sa else pure tt)
                (checked os "sig::unbind" [] (os.sigaction_get signo) t))
      Kept-cleared t u z =
          follow-checked os (Keeps os laws (Any os laws)) "sig::unbind" [] (os.sigaction_get signo)
            _ t
            (λ sa w e. elim (Bool-cases (is_ours sa.0)) [
              | inl b ↦ rw b (reset-Keeps sa (record t { world = w }) (got w t.errno e) z)
              | inr b ↦ rw b (tt, got w t.errno e)
            ])
            (λ c w e. got w c e)
        where
          got :
              {r : Sys (SigAction os)} (w : os.World) (c : ℕ)
              → os.sigaction_get signo t.world ≡ (r, w)
              → IsReady os laws (record t { world = w; errno = c })
          got w c e =
              same-IsReady os laws t w c u (
                subst (KeepsActions laws.action t.world) e (action_get_keeps os laws signo t.world))
