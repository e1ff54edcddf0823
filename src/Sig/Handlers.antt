-- ===== src/Sig/Handlers.antt =====
-- The handlers of each signal (socket++/sig.cpp): no handler is listed twice, and what `set` and
-- `unset` do to the lists on each of their branches.
use cpr.Common.{
  ℕ, ◌≡◌, refl, sym, ap, ◌∙◌, subst, List, [], ◌∷◌, ◌++◌, some, Bool, true, false, ◌==◌, Result, ok,
  thrown, running, err, sockoob, written, Bool-cases, ==_iff, inl, inr, codes, follow,
}
use cpr.Sig.Laws.{ours-sighandler, Actions, Reads, Replaces, follow-checked, last-checked}
use cpr.Sig.{
  put_handlers, Sig, SigOs, update, found, erase, install, set_on, set, unset, Disposition,
  sighandler, is_ours,
}
use cpr.Sig.Lists.{
  IsWell, Nodup, Nodup-append, Nodup-erase, erase-absent, erase-append, erase-gone, found-last,
  update-Nodup, update-other, update-same,
}

module _ (os : SigOs) (laws : Actions os) where
  abbrev action_of : Sig os.World → ℕ → Disposition
  action_of s = laws.action s.world

  -- The first handler of a signal makes `sighandler` its action, or the call throws.
  abbrev pub Installs : ℕ → Sig os.World → Result (Unit {0}) × Sig os.World → Type 0
  Installs signo s (ok _, t) = (action_of t signo ≡ sighandler) × (t.smap ≡ s.smap)
  Installs signo s (thrown (err e), t) = (e.operation ≡ "sig::set") × (t.smap ≡ s.smap)
  Installs signo s (thrown sockoob, t) = ⊥
  Installs signo s (thrown (written n), t) = ⊥
  Installs signo s (running, t) = ⊥

  Installs-same :
      (signo : ℕ) (s t : Sig os.World) (r : Result (Unit {0}) × Sig os.World)
      → t.smap ≡ s.smap
      → Installs signo t r
      → Installs signo s r
  Installs-same signo s t (ok _, u) e p = (p.0, p.1 ∙ e)
  Installs-same signo s t (thrown (err c), u) e p = (p.0, p.1 ∙ e)
  Installs-same signo s t (thrown sockoob, u) e p = p
  Installs-same signo s t (thrown (written n), u) e p = p
  Installs-same signo s t (running, u) e p = p

  pub install-Installs : (signo : ℕ) (s : Sig os.World) → Installs signo s (install os signo s)
  unfolding install
  install-Installs signo s =
      follow-checked os (Installs signo s) "sig::set" [] (os.sigaction_get signo) _ s
        (λ sa w e.
          let (here, same) =
            subst (Reads laws.action signo s.world) e (laws.get_reads signo s.world) in
          elim (Bool-cases (is_ours sa.0)) [
            | inl b ↦ rw b (same signo ∙ sym here ∙ ours-sighandler sa.0 b, refl)
            | inr b ↦ rw b (
                follow-checked os (Installs signo s) "sig::set" (codes "sigemptyset() call failed")
                  (os.sigemptyset sa.1.0) _ (record s { world = w })
                  (λ mask w' e'.
                    last-checked os (Installs signo s) "sig::set" (codes "sigaction() call failed")
                      (os.sigaction_set signo (sighandler, (mask, 0))) (record s { world = w' })
                      (λ _ w'' e''. (
                        (subst (Replaces laws.action signo sighandler w') e''
                            (laws.set_replaces signo (sighandler, (mask, 0)) w')).0,
                        refl,
                      ))
                      (λ c w'' e''. (refl, refl)))
                  (λ c w' e'. (refl, refl)))
          ])
        (λ c w e. (refl, refl))

  -- What `set` does: it puts a handler that is not yet listed at the end of its signal's list, and
  -- leaves the other lists alone; behind the first handler the action is `sighandler`. It throws only
  -- on a first handler, and then lists nothing.
  abbrev pub Sets : ℕ → ℕ → Sig os.World → Result Bool × Sig os.World → Type 0
  Sets signo h s (ok true, t) =
      (found h (s.smap signo) ≡ false)
      × (t.smap ≡ update s.smap signo (s.smap signo ++ h ∷ []))
      × (s.smap signo ≡ [] → action_of t signo ≡ sighandler)
  Sets signo h s (ok false, t) = (found h (s.smap signo) ≡ true) × (t ≡ s)
  Sets signo h s (thrown (err e), t) =
      (s.smap signo ≡ []) × (t.smap ≡ s.smap) × (e.operation ≡ "sig::set")
  Sets signo h s (thrown sockoob, t) = ⊥
  Sets signo h s (thrown (written n), t) = ⊥
  Sets signo h s (running, t) = ⊥

  set_first :
      (signo h : ℕ) (s : Sig os.World) (r : Result (Unit {0}) × Sig os.World)
      → s.smap signo ≡ []
      → Installs signo s r
      → Sets signo h s
          (follow (λ _ t. (ok true, t)) (follow (λ _. put_handlers os signo (h ∷ [])) r))
  set_first signo h s (ok _, t) e (a, m) = (
    ap (found h) e,
    ap (λ f. update f signo (h ∷ [])) m ∙ ap (λ xs. update s.smap signo (xs ++ h ∷ [])) (sym e),
    (λ _. a),
  )
  set_first signo h s (thrown (err c), t) e (o, m) = (e, m, o)
  set_first signo h s (thrown sockoob, t) e p = p
  set_first signo h s (thrown (written n), t) e p = p
  set_first signo h s (running, t) e p = p

  set_by_list :
      (signo h : ℕ) (s : Sig os.World) (v : List ℕ)
      → s.smap signo ≡ v
      → Sets signo h s (set_on os signo h v s)
  unfolding set_on
  set_by_list signo h s [] e = set_first signo h s (install os signo s) e (install-Installs signo s)
  set_by_list signo h s (x ∷ xs) e = elim (Bool-cases (found h (x ∷ xs))) [
    | inl b ↦ rw b (ap (found h) e ∙ b, refl)
    | inr b ↦ rw b (
      ap (found h) e ∙ b,
      ap (λ ys. update s.smap signo (ys ++ h ∷ [])) (sym e),
      (λ n. absurd (cc (n, e))),
    )
  ]

  -- `set` returns true exactly where it has put a handler that was not listed at the end of its
  -- signal's list, and then the action of a signal that had no handler is `sighandler`; it
  -- returns false where the handler is listed, and changes nothing; it throws only for a signal
  -- without handlers, and lists nothing then. The other signals' lists are as before in each
  -- case.
  pub set-Sets : (signo h : ℕ) (s : Sig os.World) → Sets signo h s (set os signo (some h) s)
  unfolding set
  set-Sets signo h s = set_by_list signo h s (s.smap signo) refl

  -- In either case no handler is listed twice.
  Sets-IsWell :
      (signo h : ℕ) (s : Sig os.World) (r : Result Bool × Sig os.World)
      → IsWell s
      → Sets signo h s r
      → IsWell r.1
  Sets-IsWell signo h s (ok true, t) v (f, m, _) =
      subst (λ g. (n : ℕ) → Nodup (g n)) (sym m)
        (update-Nodup s.smap signo (s.smap signo ++ h ∷ []) v
          (Nodup-append h (s.smap signo) (v signo) f))
  Sets-IsWell signo h s (ok false, t) v (f, e) = subst IsWell (sym e) v
  Sets-IsWell signo h s (thrown (err c), t) v (e, m, o) =
      subst (λ g. (n : ℕ) → Nodup (g n)) (sym m) v
  Sets-IsWell signo h s (thrown sockoob, t) v p = absurd p
  Sets-IsWell signo h s (thrown (written n), t) v p = absurd p
  Sets-IsWell signo h s (running, t) v p = absurd p

  -- If no handler stands twice in the list of any signal, this is so after `set`, whether it
  -- returns or throws.
  pub set-IsWell : (signo h : ℕ) (s : Sig os.World) → IsWell s → IsWell (set os signo (some h) s).1
  set-IsWell signo h s v = Sets-IsWell signo h s _ v (set-Sets signo h s)

  -- If no handler stands twice in a list, `unset` returns whether the handler was listed, takes
  -- it out of its signal's list, which then has it no more, and keeps it so that no handler
  -- stands twice in any list. It makes no system call.
  pub unset-removes :
      (signo h : ℕ) (s : Sig os.World)
      → IsWell s
      → let (r, t) = unset os signo (some h) s in
        (r ≡ ok (found h (s.smap signo)))
        × (t.smap signo ≡ erase h (s.smap signo))
        × (found h (t.smap signo) ≡ false)
        × IsWell t
        × (t.world ≡ s.world)
  unfolding unset
  unset-removes signo h s v = elim (Bool-cases (found h (s.smap signo))) [
    | inl b ↦ rw b (
        let here = update-same s.smap signo (erase h (s.smap signo)) in
        (
          refl,
          here,
          ap (found h) here ∙ erase-gone h (s.smap signo) (v signo),
          update-Nodup s.smap signo (erase h (s.smap signo)) v
              (Nodup-erase h (s.smap signo) (v signo)),
          refl,
        ))
    | inr b ↦ rw b (refl, sym (erase-absent h (s.smap signo) b), b, v, refl)
  ]

  -- After a `set` that has returned true, `unset` of the same handler returns true, and the
  -- list of every signal is as it was before the `set`.
  pub unset-set :
      (signo h : ℕ) (s t : Sig os.World)
      → set os signo (some h) s ≡ (ok true, t)
      → (unset os signo (some h) t).0 ≡ ok true
        × ((n : ℕ) → (unset os signo (some h) t).1.smap n ≡ s.smap n)
  unfolding unset
  unset-set signo h s t e =
      let (f, m, _) = subst (Sets signo h s) e (set-Sets signo h s) in
      let here : t.smap signo ≡ s.smap signo ++ h ∷ [] =
        ap (λ g. g signo) m ∙ update-same s.smap signo (s.smap signo ++ h ∷ []) in
      let listed : found h (t.smap signo) ≡ true =
        ap (found h) here ∙ found-last h (s.smap signo) in
      rw listed (
        refl,
        λ n. elim (Bool-cases (n == signo)) [
          | inl b ↦ rw b (
              ap (erase h) here
              ∙ erase-append h (s.smap signo) f
              ∙ ap s.smap (sym ((==_iff n signo).0 b)))
          | inr b ↦ rw b (ap (λ g. g n) m ∙ update-other s.smap signo n (s.smap signo ++ h ∷ []) b)
        ],
      )
