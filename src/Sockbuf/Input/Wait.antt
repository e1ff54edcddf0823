-- ===== src/Sockbuf/Input/Wait.antt =====
-- `read` with its wait and its test for the urgent mark (socket++/sockstream.cpp).
use cpr.Errno.{etimedout}
use cpr.Common.{
  not, throw, pure, if◌then◌else◌, ℕ, ap, ◌≤◌, ◌<◌, ◌≡◌, refl, sym, ◌∙◌, subst, List, [], ◌++◌,
  String, Result, ok, thrown, running, written, err, sockoob, length, Bool, true, false, ℤ, pos,
  is_minus_one, is_zero, ◌==◌, Bool-cases, inl, inr, follow, Action,
}
use cpr.Os.{Os, Sys, done, fails, reading, siocatmark}
use cpr.Os.Laws.{Input, Keeps, Delivers}
use cpr.Sockbuf.State.{throw_err, Sock, or_throw, settle}
use cpr.Sockbuf.Io.{before_read, is_readready, atmark, read, timeval, wait_or_throw, throw_at_mark}
use cpr.Sockbuf.Output.Transfer.{SameObject, SameObject-refl, SameObject-trans}

module _ (os : Os) (fd : ℕ) (inp : Input os fd) where
  abbrev pub Quiet : Sock os.World → Sock os.World → Type 0
  Quiet s t = (inp.pending t.world fd ≡ inp.pending s.world fd) × SameObject s t

  -- The steps before a read end well, or throw an `err` or a `sockoob`; no byte is delivered.
  abbrev pub Waits : {A : Type 0} → Sock os.World → Result A × Sock os.World → Type 0
  Waits s (ok _, t) = Quiet s t
  Waits s (thrown (err e), t) = Quiet s t
  Waits s (thrown sockoob, t) = Quiet s t
  Waits s (thrown (written n), t) = ⊥
  Waits s (running, t) = ⊥

  Waits-trans :
      {A : Type 0} {s t : Sock os.World}
      → Quiet s t
      → (r : Result A × Sock os.World) → Waits t r
      → Waits s r
  Waits-trans q (ok a, u) p = (p.0 ∙ q.0, SameObject-trans q.1 p.1)
  Waits-trans q (thrown (err e), u) p = (p.0 ∙ q.0, SameObject-trans q.1 p.1)
  Waits-trans q (thrown sockoob, u) p = (p.0 ∙ q.0, SameObject-trans q.1 p.1)
  Waits-trans q (thrown (written n), u) p = p
  Waits-trans q (running, u) p = p

  -- A block waits if its first part does and its rest does.
  Waits-follow :
      {A B : Type 0} (s : Sock os.World) (r : Result A × Sock os.World)
      (f : A → Action (Sock os.World) B)
      → Waits s r
      → ((a : A) (t : Sock os.World) → Quiet s t → Waits t (f a t))
      → Waits s (follow f r)
  Waits-follow s (ok a, t) f p k = Waits-trans p (f a t) (k a t p)
  Waits-follow s (thrown (err e), t) f p k = p
  Waits-follow s (thrown sockoob, t) f p k = p
  Waits-follow s (thrown (written n), t) f p k = absurd p
  Waits-follow s (running, t) f p k = absurd p

  Waits-if :
      {A : Type 0} (b : Bool) (f g : Action (Sock os.World) A) (t : Sock os.World)
      → Waits t (f t)
      → Waits t (g t)
      → Waits t ((if b then f else g) t)
  Waits-if true f g t p q = p
  Waits-if false f g t p q = q

  -- A system call that keeps the pending bytes.
  checked-Waits :
      {A : Type 0} (operation : String) (s : Sock os.World) (v : Sys A × os.World)
      → Keeps inp.pending fd s.world v
      → Waits s (let (r, s') = settle s v in or_throw operation r s')
  checked-Waits operation s (done a, w) k =
      (k, record { rep = refl; get = refl; put = refl; sockname = refl })
  checked-Waits operation s (fails e, w) k =
      (k, record { rep = refl; get = refl; put = refl; sockname = refl })

  sock_of : {s t : Sock os.World} → s.rep.sock ≡ fd → Quiet s t → t.rep.sock ≡ fd
  sock_of at q = ap (λ r. r.sock) q.1.rep ∙ at

  is_readready-Waits :
      (sec usec : ℤ) (s : Sock os.World) → s.rep.sock ≡ fd → Waits s (is_readready os sec usec s)
  unfolding is_readready
  is_readready-Waits sec usec s at = checked-Waits "sockbuf::is_readready" s _ (
      subst (λ d. Keeps inp.pending fd s.world (os.select reading d (timeval sec usec) s.world))
        (sym at) (inp.read_select reading (timeval sec usec) s.world))

  atmark-Waits : (s : Sock os.World) → s.rep.sock ≡ fd → Waits s (atmark os s)
  unfolding atmark
  atmark-Waits s at =
      Waits-follow {A = ℤ} s _ (λ arg t. (ok (not (is_zero arg)), t))
        (checked-Waits "sockbuf::atmark" s _ (
          subst (λ d. Keeps inp.pending fd s.world (os.ioctl d siocatmark (pos 0) s.world)) (sym at)
            (inp.read_ioctl siocatmark (pos 0) s.world)))
        (λ a t q. (refl, SameObject-refl t))

  wait-Waits :
      (operation : String) (tmo : ℤ) (s : Sock os.World)
      → s.rep.sock ≡ fd
      → Waits s (wait_or_throw os operation tmo (λ t. is_readready os t (pos 0)) s)
  wait-Waits operation tmo s at = elim (Bool-cases (is_minus_one tmo)) [
    | inl b ↦ rw b (refl, SameObject-refl s)
    | inr b ↦ rw b (
        Waits-follow s _ _ (is_readready-Waits tmo (pos 0) s at) (λ n t q.
          Waits-if (n == 0) (throw_err etimedout operation) (pure tt) t (refl, SameObject-refl t)
            (refl, SameObject-refl t)))
  ]

  throw_at_mark-Waits :
      (b : Bool) (s : Sock os.World) → s.rep.sock ≡ fd → Waits s (throw_at_mark os b s)
  throw_at_mark-Waits false s at = (refl, SameObject-refl s)
  throw_at_mark-Waits true s at = Waits-follow s _ _ (atmark-Waits s at) (λ mark t q.
      Waits-if mark (throw sockoob) (pure tt) t (refl, SameObject-refl t) (refl, SameObject-refl t))

  pub before_read-Waits :
      (operation : String) (s : Sock os.World)
      → s.rep.sock ≡ fd
      → Waits s (before_read os operation s)
  unfolding before_read
  before_read-Waits operation s at =
      Waits-follow s _ _ (wait-Waits operation s.rep.rtmo s at)
        (λ _ t q. throw_at_mark-Waits s.rep.oob t (sock_of at q))

  -- How `read` ends: with the next bytes, at most `n` of them, or with nothing delivered. It returns
  -- no byte at the end of the stream only.
  abbrev pub Reads : ℕ → Sock os.World → Result (List ℕ) × Sock os.World → Type 0
  Reads n s (ok xs, t) =
      (length xs ≤ n)
      × (inp.pending s.world fd ≡ xs ++ inp.pending t.world fd)
      × (0 < n → xs ≡ [] → inp.pending s.world fd ≡ [])
      × SameObject s t
  Reads n s (thrown (err e), t) = Quiet s t
  Reads n s (thrown sockoob, t) = Quiet s t
  Reads n s (thrown (written k), t) = ⊥
  Reads n s (running, t) = ⊥

  Delivers-Reads :
      (n : ℕ) (s t : Sock os.World) (v : Sys (List ℕ) × os.World)
      → Quiet s t
      → Delivers inp.pending fd n t.world v
      → Reads n s (let (r, t') = settle t v in or_throw "sockbuf::read" r t')
  Delivers-Reads n s t (done xs, w) (e, same) (l, p, z) = (
    l,
    sym e ∙ p,
    (λ h x. sym e ∙ z h x),
    SameObject-trans same (record { rep = refl; get = refl; put = refl; sockname = refl }),
  )
  Delivers-Reads n s t (fails x, w) (e, same) p = (
    p ∙ e,
    SameObject-trans same (record { rep = refl; get = refl; put = refl; sockname = refl }),
  )

  after_wait-Reads :
      (n : ℕ) (s : Sock os.World) (r : Result (Unit {0}) × Sock os.World)
      → s.rep.sock ≡ fd
      → before_read os "sockbuf::read" s ≡ r
      → Waits s r
      → Reads n s (read os n s)
  unfolding read
  after_wait-Reads n s (ok _, t) at e q = rw e (
      Delivers-Reads n s t _ q (
        subst (λ d. Delivers inp.pending fd n t.world (os.read d n t.world)) (sym (sock_of at q))
          (inp.read_gives n t.world)))
  after_wait-Reads n s (thrown (err x), t) at e q = rw e q
  after_wait-Reads n s (thrown sockoob, t) at e q = rw e q
  after_wait-Reads n s (thrown (written k), t) at e q = absurd q
  after_wait-Reads n s (running, t) at e q = absurd q

  -- `read` on the object's descriptor returns the next bytes that the system delivers, no more
  -- than asked for, and none only if none were asked for or none are left. If it throws, an
  -- `err` or `sockoob`, none are lost. The object's buffers are as before.
  pub read-Reads : (n : ℕ) (s : Sock os.World) → s.rep.sock ≡ fd → Reads n s (read os n s)
  read-Reads n s at = after_wait-Reads n s _ at refl (before_read-Waits "sockbuf::read" s at)
