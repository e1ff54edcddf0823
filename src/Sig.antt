-- ===== src/Sig.antt =====
-- The signal handlers (socket++/sig.h, socket++/sig.cpp), where HAVE_SIGACTION is defined. A handler is
-- the address of its object; the calls of <signal.h> and what a handler does when it is called are
-- the parameter `SigOs`.
pub mod Laws
pub mod Lists
pub mod Handlers
pub mod Calls
pub mod Kept
pub mod Handled
use cpr.Common.{
  ℕ, ◌+◌, ◌-◌, ◌*◌, ◌/◌, ◌%◌, ◌^◌, not, List, [], ◌∷◌, ◌++◌, Option, none, some, Bool, true, false,
  ◌==◌, String, Action, Err, Result, ok, thrown, err, pure, throw, gets, modify, ◌>>=◌, ◌>>◌,
  if◌then◌else◌, codes,
}
use cpr.Os.{Sys, done, fails, Call}

-- `sa_handler`: `SIG_DFL`, the function `sighandler`, or another one.
pub data Disposition : Type 0 where
  sig_dfl sighandler : Disposition
  foreign : ℕ → Disposition

pub record SigOs : Type 1 where
  pub World : Type 0
  pub SigSet : Type 0
  pub sigemptyset : SigSet → Call World SigSet
  pub sigaddset : SigSet → ℕ → Call World SigSet
  pub sigdelset : SigSet → ℕ → Call World SigSet
  pub sigismember : SigSet → ℕ → Call World Bool
  pub sigprocmask : Bool → SigSet → Call World (Unit {0})
  pub sigpending : SigSet → Call World SigSet
  -- `sa_handler`, `sa_mask` and `sa_flags` of a signal.
  pub sigaction_get : ℕ → Call World (Disposition × (SigSet × ℕ))
  pub sigaction_set : ℕ → Disposition × (SigSet × ℕ) → Call World (Unit {0})
  -- `(*handler) (signo)`
  pub invoke : ℕ → ℕ → Call World (Unit {0})

-- The map `smap`, as what `smap [signo]` is, and errno.
pub record Sig (W : Type 0) : Type 0 where
  pub smap : ℕ → List ℕ
  pub errno : ℕ
  pub world : W

abbrev pub update : (ℕ → List ℕ) → ℕ → List ℕ → ℕ → List ℕ
update f signo hs n = if n == signo then hs else f n

-- `find (v.begin (), v.end (), handler) != v.end ()`
abbrev pub found : ℕ → List ℕ → Bool
found h [] = false
found h (x ∷ xs) = if x == h then true else found h xs

-- `v.erase (find (v.begin (), v.end (), handler))`
abbrev pub erase : ℕ → List ℕ → List ℕ
erase h [] = []
erase h (x ∷ xs) = if x == h then xs else x ∷ erase h xs

abbrev pub is_ours : Disposition → Bool
is_ours sig_dfl = false
is_ours sighandler = true
is_ours (foreign n) = false

-- `SA_INTERRUPT`, bit 29 of the flags, set or cleared.
abbrev pub with_interrupt : Bool → ℕ → ℕ
with_interrupt on flags = flags - (flags / 2 ^ 29 % 2) * 2 ^ 29 + (if on then 2 ^ 29 else 0)

module _ (os : SigOs) where
  abbrev pub SigAction : Type 0
  SigAction = Disposition × (os.SigSet × ℕ)

  abbrev pub settle : {A : Type 0} → Sig os.World → Sys A × os.World → Option A × Sig os.World
  settle s (done a, w) = (some a, record s { world = w })
  settle s (fails e, w) = (none, record s { world = w; errno = e })

  -- `if (f (...) == -1) throw err (errno, operation, specification)`
  abbrev pub or_throw : {A : Type 0} → String → List ℕ → Option A → Action (Sig os.World) A
  or_throw operation specification none s = (
    thrown (err (record { code = s.errno; operation = operation; specification = specification })),
    s,
  )
  or_throw operation specification (some a) s = (ok a, s)

  abbrev pub checked : {A : Type 0} → String → List ℕ → Call os.World A → Action (Sig os.World) A
  checked operation specification f s =
      let (r, s') = settle s (f s.world) in or_throw operation specification r s'

  abbrev pub put_handlers : ℕ → List ℕ → Action (Sig os.World) (Unit {0})
  put_handlers signo hs = modify (λ s. record s { smap = update s.smap signo hs })

  -- What `set` does on the first handler: `sighandler` becomes the action, if it is not already.
  unfoldable pub install : ℕ → Action (Sig os.World) (Unit {0})
  install signo = do
    sa ← checked "sig::set" [] (os.sigaction_get signo)
    if is_ours sa.0 then pure tt else (do
      mask ← checked "sig::set" (codes "sigemptyset() call failed") (os.sigemptyset sa.1.0)
      checked "sig::set" (codes "sigaction() call failed")
          (os.sigaction_set signo (sighandler, (mask, 0))))

  -- `set`, with `v` what `smap [signo]` is.
  unfoldable pub set_on : ℕ → ℕ → List ℕ → Action (Sig os.World) Bool
  set_on signo h [] = install signo >> put_handlers signo (h ∷ []) >> pure true
  set_on signo h (x ∷ xs) =
      if found h (x ∷ xs)
      then pure false
      else (put_handlers signo ((x ∷ xs) ++ h ∷ []) >> pure true)

  -- A null pointer is `none`.
  unfoldable pub set : ℕ → Option ℕ → Action (Sig os.World) Bool
  set signo none s = (ok false, s)
  set signo (some h) s = set_on signo h (s.smap signo) s

  unfoldable pub unset : ℕ → Option ℕ → Action (Sig os.World) Bool
  unset signo none s = (ok false, s)
  unset signo (some h) s =
      (if found h (s.smap signo)
          then put_handlers signo (erase h (s.smap signo)) >> pure true
          else pure false)
        s

  unfoldable pub unbind : ℕ → Action (Sig os.World) (Unit {0})
  unbind signo = do
    put_handlers signo []
    sa ← checked "sig::unbind" [] (os.sigaction_get signo)
    if is_ours sa.0
        then (do
          mask ← checked "sig::unbind" [] (os.sigemptyset sa.1.0)
          checked "sig::unbind" [] (os.sigaction_set signo (sig_dfl, (mask, 0))))
        else pure tt

  -- `mask (signo)` and `unmask (signo)`; `uninit` is the local set before `sigemptyset`.
  abbrev pub change_mask : String → Bool → os.SigSet → ℕ → Action (Sig os.World) (Unit {0})
  change_mask operation block uninit signo = do
    empty ← checked operation [] (os.sigemptyset uninit)
    s ← checked operation [] (os.sigaddset empty signo)
    checked operation [] (os.sigprocmask block s)

  unfoldable pub mask : os.SigSet → ℕ → Action (Sig os.World) (Unit {0})
  mask = change_mask "sig::mask" true

  unfoldable pub unmask : os.SigSet → ℕ → Action (Sig os.World) (Unit {0})
  unmask = change_mask "sig::unmask" false

  -- `sighandler` with an empty mask and no flags, where the action is another one.
  abbrev pub ours : String → SigAction → Action (Sig os.World) SigAction
  ours operation sa = do
    empty ← checked operation [] (os.sigemptyset sa.1.0)
    pure (sighandler, (empty, 0))

  unfoldable pub mask_in : ℕ → ℕ → Action (Sig os.World) (Unit {0})
  mask_in siga sigb = do
    old ← checked "sig::mask" [] (os.sigaction_get siga)
    sa ← if is_ours old.0 then pure old else ours "sig::mask" old
    s ← checked "sig::mask" [] (os.sigaddset sa.1.0 sigb)
    checked "sig::mask" [] (os.sigaction_set siga (sa.0, (s, sa.1.1)))

  unfoldable pub unmask_in : ℕ → ℕ → Action (Sig os.World) (Unit {0})
  unmask_in siga sigb = do
    old ← checked "sig::unmask" [] (os.sigaction_get siga)
    sa ←
        if is_ours old.0
        then (do
          s ← checked "sig::unmask" [] (os.sigdelset old.1.0 sigb)
          pure (old.0, (s, old.1.1)))
        else ours "sig::unmask" old
    checked "sig::unmask" [] (os.sigaction_set siga sa)

  unfoldable pub sysresume : ℕ → Bool → Action (Sig os.World) (Unit {0})
  sysresume signo resume = do
    old ← checked "sig::sysresume" [] (os.sigaction_get signo)
    sa ← if is_ours old.0 then pure old else ours "sig::sysresume" old
    checked "sig::sysresume" []
        (os.sigaction_set signo (sa.0, (sa.1.0, with_interrupt (not resume) sa.1.1)))

  unfoldable pub pending : os.SigSet → Action (Sig os.World) os.SigSet
  pending uninit = do
    empty ← checked "sig::pending" [] (os.sigemptyset uninit)
    checked "sig::pending" [] (os.sigpending empty)

  unfoldable pub ispending : os.SigSet → ℕ → Action (Sig os.World) Bool
  ispending uninit signo = do
    s ← pending uninit
    checked "sig::ispending" [] (os.sigismember s signo)

  -- A call of a handler, whose result does not matter.
  abbrev pub call_handler : ℕ → ℕ → Sig os.World → Sig os.World
  call_handler signo h s = record s { world = (os.invoke h signo s.world).1 }

  abbrev pub call_handlers : ℕ → List ℕ → Sig os.World → Sig os.World
  call_handlers signo [] s = s
  call_handlers signo (h ∷ hs) s = call_handlers signo hs (call_handler signo h s)

  -- `kill`, for handlers that leave `sig` alone.
  unfoldable pub kill : ℕ → Sig os.World → Sig os.World
  kill signo s = call_handlers signo (s.smap signo) s

  -- `handler::handler` and `handler::~handler`, `h` being the object.
  unfoldable pub construct_handler : ℕ → ℕ → Action (Sig os.World) (Unit {0})
  construct_handler h signo = set signo (some h) >> pure tt

  unfoldable pub destroy_handler : ℕ → ℕ → Action (Sig os.World) (Unit {0})
  destroy_handler h signo = unset signo (some h) >> pure tt
