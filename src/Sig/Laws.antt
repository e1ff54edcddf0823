-- ===== src/Sig/Laws.antt =====
-- What the code relies on of <signal.h>: `sigaction` reads and replaces the action of one signal, and
-- the calls on signal sets change none, nor does a handler.
use cpr.Common.{
  arith, true, Bool, ℕ, ◌≡◌, refl, false, ◌==◌, List, String, Result, ok, thrown, err, Action,
  ◌>>=◌, follow,
}
use cpr.Os.{Sys, done, fails, Call}
use cpr.Sig.{
  sig_dfl, sighandler, foreign, is_ours, Sig, SigOs, SigAction, Disposition, checked, settle,
  or_throw,
}

pub ours-sighandler : (d : Disposition) → is_ours d ≡ true → d ≡ sighandler
ours-sighandler sig_dfl b = absurd (ground (arith, b))
ours-sighandler sighandler b = refl
ours-sighandler (foreign n) b = absurd (ground (arith, b))

module _ {W : Type 0} (action : W → ℕ → Disposition) where
  abbrev pub SameActions : W → W → Type 0
  SameActions w w' = (n : ℕ) → action w' n ≡ action w n

  abbrev pub KeepsActions : {A : Type 0} → W → Sys A × W → Type 0
  KeepsActions w (r, w') = SameActions w w'

  abbrev pub Reads : {B : Type 0} → ℕ → W → Sys (Disposition × B) × W → Type 0
  Reads signo w (done a, w') = (a.0 ≡ action w signo) × SameActions w w'
  Reads signo w (fails e, w') = SameActions w w'

  abbrev pub Replaces : ℕ → Disposition → W → Sys (Unit {0}) × W → Type 0
  Replaces signo d w (done _, w') =
      (action w' signo ≡ d) × ((n : ℕ) → (n == signo) ≡ false → action w' n ≡ action w n)
  Replaces signo d w (fails e, w') = SameActions w w'

pub record Actions (os : SigOs) : Type 0 where
  pub action : os.World → ℕ → Disposition
  pub get_reads : (signo : ℕ) (w : os.World) → Reads action signo w (os.sigaction_get signo w)
  pub set_replaces :
      (signo : ℕ) (a : SigAction os) (w : os.World)
      → Replaces action signo a.0 w (os.sigaction_set signo a w)
  pub empty_keeps : (x : os.SigSet) (w : os.World) → KeepsActions action w (os.sigemptyset x w)
  pub add_keeps :
      (x : os.SigSet) (n : ℕ) (w : os.World) → KeepsActions action w (os.sigaddset x n w)
  pub del_keeps :
      (x : os.SigSet) (n : ℕ) (w : os.World) → KeepsActions action w (os.sigdelset x n w)
  pub procmask_keeps :
      (block : Bool) (x : os.SigSet) (w : os.World)
      → KeepsActions action w (os.sigprocmask block x w)
  -- A handler does not change the actions itself.
  pub invoke_keeps : (h n : ℕ) (w : os.World) → KeepsActions action w (os.invoke h n w)

module _ (os : SigOs) where
  -- The error that a call throws, and the state behind it.
  abbrev pub failed :
      {B : Type 0} → String → List ℕ → ℕ → os.World → Sig os.World → Result B × Sig os.World
  failed operation specification e w s = (
    thrown (err (record { code = e; operation = operation; specification = specification })),
    record s { world = w; errno = e },
  )

  -- A block that begins with a call, by what the call returns.
  pub follow-checked :
      {A B : Type 0} (P : Result B × Sig os.World → Type 0) (operation : String)
      (specification : List ℕ) (f : Call os.World A) (k : A → Action (Sig os.World) B)
      (s : Sig os.World)
      → ((a : A) (w : os.World) → f s.world ≡ (done a, w) → P (k a (record s { world = w })))
      → ((e : ℕ) (w : os.World)
          → f s.world ≡ (fails e, w)
          → P (failed operation specification e w s))
      → P ((checked os operation specification f >>= k) s)
  follow-checked {A} P operation specification f k s good bad = by_result (f s.world) refl
    where
      by_result :
          (r : Sys A × os.World)
          → f s.world ≡ r
          → P (follow k (let (o, s') = settle os s r in or_throw os operation specification o s'))
      by_result (done a, w) e = good a w e
      by_result (fails c, w) e = bad c w e

  -- The same of a block that ends with the call.
  pub last-checked :
      {A : Type 0} (P : Result A × Sig os.World → Type 0) (operation : String)
      (specification : List ℕ) (f : Call os.World A) (s : Sig os.World)
      → ((a : A) (w : os.World) → f s.world ≡ (done a, w) → P (ok a, record s { world = w }))
      → ((e : ℕ) (w : os.World)
          → f s.world ≡ (fails e, w)
          → P (failed operation specification e w s))
      → P (checked os operation specification f s)
  last-checked {A} P operation specification f s good bad = by_result (f s.world) refl
    where
      by_result :
          (r : Sys A × os.World)
          → f s.world ≡ r
          → P (let (o, s') = settle os s r in or_throw os operation specification o s')
      by_result (done a, w) e = good a w e
      by_result (fails c, w) e = bad c w e
