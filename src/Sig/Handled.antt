-- ===== src/Sig/Handled.antt =====
-- The operations of `sig` (socket++/sig.cpp) in any order: each signal's handlers are called, once.
use cpr.Common.{
  ℕ, ◌≡◌, refl, ap, List, [], ◌∷◌, ◌++◌, some, Bool, true, false, Result, ok, thrown, running,
  Bool-cases, inl, inr, follow,
}
use cpr.Sig.{
  Sig, SigOs, found, erase, put_handlers, install, set_on, set, unset, unbind, mask, unmask,
  mask_in, unmask_in, sysresume, kill, call_handlers,
}
use cpr.Sig.Laws.{Actions}
use cpr.Sig.Handlers.{Installs, install-Installs, set-IsWell, unset-removes}
use cpr.Sig.Calls.{IsHandled, IsReady, Keeps, Any, same-IsReady}
use cpr.Sig.Kept.{
  Keeps-IsReady, update-IsHandled, install-Keeps, mask_in-Keeps, sysresume-Keeps, unmask_in-Keeps,
  change_mask-Keeps, unbind-Keeps,
}

-- The operations of `sig`; `mask` and `unmask` with their uninitialised local set.
pub data Op (SigSet : Type 0) : Type 0 where
  sets unsets : ℕ → ℕ → Op SigSet
  unbinds kills : ℕ → Op SigSet
  masks unmasks : SigSet → ℕ → Op SigSet
  masks_in unmasks_in : ℕ → ℕ → Op SigSet
  resumes : ℕ → Bool → Op SigSet

module _ (os : SigOs) where
  -- The state behind an operation that returns or throws.
  unfoldable pub perform : Op os.SigSet → Sig os.World → Sig os.World
  perform (sets signo h) s = (set os signo (some h) s).1
  perform (unsets signo h) s = (unset os signo (some h) s).1
  perform (unbinds signo) s = (unbind os signo s).1
  perform (kills signo) s = kill os signo s
  perform (masks x signo) s = (mask os x signo s).1
  perform (unmasks x signo) s = (unmask os x signo s).1
  perform (masks_in siga sigb) s = (mask_in os siga sigb s).1
  perform (unmasks_in siga sigb) s = (unmask_in os siga sigb s).1
  perform (resumes signo resume) s = (sysresume os signo resume s).1

  unfoldable pub perform_all : List (Op os.SigSet) → Sig os.World → Sig os.World
  perform_all [] s = s
  perform_all (op ∷ ops) s = perform_all ops (perform op s)

module _ (os : SigOs) (laws : Actions os) where
  -- The first handler of a signal, behind `install`.
  first-IsHandled :
      (signo h : ℕ) (s : Sig os.World) (r : Result (Unit {0}) × Sig os.World)
      → Installs os laws signo s r
      → Keeps os laws (Any os laws) r
      → (n : ℕ)
      → IsHandled os laws
          (follow (λ _ t. (ok true, t)) (follow (λ _. put_handlers os signo (h ∷ [])) r)).1.smap
          (follow (λ _ t. (ok true, t)) (follow (λ _. put_handlers os signo (h ∷ [])) r)).1.world
          n
  first-IsHandled signo h s (ok _, t) (a, m) (_, v) =
      update-IsHandled os laws t signo (h ∷ []) t.world v.handled (inr a)
  first-IsHandled signo h s (thrown e, t) i v = v.handled
  first-IsHandled signo h s (running, t) i v = v.handled

  set_on-IsHandled :
      (signo h : ℕ) (hs : List ℕ) (s : Sig os.World)
      → s.smap signo ≡ hs
      → IsReady os laws s
      → (n : ℕ)
      → IsHandled os laws (set_on os signo h hs s).1.smap (set_on os signo h hs s).1.world n
  unfolding set_on
  set_on-IsHandled signo h [] s e v =
      first-IsHandled signo h s (install os signo s) (install-Installs os laws signo s)
        (install-Keeps os laws signo s v)
  set_on-IsHandled signo h (x ∷ xs) s e v = elim (Bool-cases (found h (x ∷ xs))) [
    | inl b ↦ rw b v.handled
    | inr b ↦ rw b (
        update-IsHandled os laws s signo ((x ∷ xs) ++ h ∷ []) s.world v.handled
          (elim (v.handled signo) [ inl z ↦ absurd (cc (z, e)) | inr a ↦ inr a ]))
  ]

  set-IsReady :
      (signo h : ℕ) (s : Sig os.World)
      → IsReady os laws s
      → IsReady os laws (set os signo (some h) s).1
  unfolding set
  set-IsReady signo h s v = record {
    well = set-IsWell os laws signo h s v.well;
    handled = set_on-IsHandled signo h (s.smap signo) s refl v;
  }

  erased-IsHandled :
      (signo h : ℕ) (s : Sig os.World)
      → IsReady os laws s
      → (n : ℕ)
      → IsHandled os laws (unset os signo (some h) s).1.smap (unset os signo (some h) s).1.world n
  unfolding unset
  erased-IsHandled signo h s v = elim (Bool-cases (found h (s.smap signo))) [
    | inl b ↦ rw b (
        update-IsHandled os laws s signo (erase h (s.smap signo)) s.world v.handled
          (elim (v.handled signo) [ inl z ↦ inl (ap (erase h) z) | inr a ↦ inr a ]))
    | inr b ↦ rw b v.handled
  ]

  unset-IsReady :
      (signo h : ℕ) (s : Sig os.World)
      → IsReady os laws s
      → IsReady os laws (unset os signo (some h) s).1
  unset-IsReady signo h s v = record {
    well = (unset-removes os laws signo h s v.well).3;
    handled = erased-IsHandled signo h s v;
  }

  call_handlers-IsReady :
      (signo : ℕ) (hs : List ℕ) (s : Sig os.World)
      → IsReady os laws s
      → IsReady os laws (call_handlers os signo hs s)
  call_handlers-IsReady signo [] s v = v
  call_handlers-IsReady signo (h ∷ hs) s v = call_handlers-IsReady signo hs _ (
      same-IsReady os laws s (os.invoke h signo s.world).1 s.errno v
        (laws.invoke_keeps h signo s.world))

  perform-IsReady :
      (op : Op os.SigSet) (s : Sig os.World) → IsReady os laws s → IsReady os laws (perform os op s)
  unfolding perform kill mask unmask
  perform-IsReady (sets signo h) s v = set-IsReady signo h s v
  perform-IsReady (unsets signo h) s v = unset-IsReady signo h s v
  perform-IsReady (unbinds signo) s v =
      Keeps-IsReady os laws (Any os laws) _ (unbind-Keeps os laws signo s v)
  perform-IsReady (kills signo) s v = call_handlers-IsReady signo (s.smap signo) s v
  perform-IsReady (masks x signo) s v =
      Keeps-IsReady os laws (Any os laws) _ (change_mask-Keeps os laws "sig::mask" true x signo s v)
  perform-IsReady (unmasks x signo) s v =
      Keeps-IsReady os laws (Any os laws) _
        (change_mask-Keeps os laws "sig::unmask" false x signo s v)
  perform-IsReady (masks_in siga sigb) s v =
      Keeps-IsReady os laws (Any os laws) _ (mask_in-Keeps os laws siga sigb s v)
  perform-IsReady (unmasks_in siga sigb) s v =
      Keeps-IsReady os laws (Any os laws) _ (unmask_in-Keeps os laws siga sigb s v)
  perform-IsReady (resumes signo resume) s v =
      Keeps-IsReady os laws (Any os laws) _ (sysresume-Keeps os laws signo resume s v)

  -- Any sequence of `set`, `unset`, `unbind`, `kill`, the four functions that mask signals and
  -- `sysresume`, going on behind those that throw, over a system whose handlers do not change
  -- the actions themselves, keeps two things: no handler stands twice in the list of any
  -- signal, and the action of every signal that has a handler is `sighandler`, which calls it.
  pub perform_all-IsReady :
      (ops : List (Op os.SigSet)) (s : Sig os.World)
      → IsReady os laws s
      → IsReady os laws (perform_all os ops s)
  unfolding perform_all
  perform_all-IsReady [] s v = v
  perform_all-IsReady (op ∷ ops) s v =
      perform_all-IsReady ops (perform os op s) (perform-IsReady op s v)
