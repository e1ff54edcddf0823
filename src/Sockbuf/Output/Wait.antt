-- ===== src/Sockbuf/Output/Wait.antt =====
-- `write` with its wait (socket++/sockstream.cpp).
use cpr.Common.{
  subst, sym, ℕ, ap, ◌<◌, ◌≡◌, refl, ◌∙◌, List, ◌++◌, arith, String, Result, ok, thrown, running,
  written, err, sockoob, take, length, false, pos, is_minus_one, ◌==◌, Bool-cases, inl, inr,
}
use cpr.Os.{Os, Sys, done, fails, writing}
use cpr.Os.Laws.{Output, Keeps}
use cpr.Sockbuf.State.{Sock}
use cpr.Sockbuf.Io.{transmit, before_write, is_writeready, write, timeval}
use cpr.Sockbuf.Output.Transfer.{
  SameObject, SameObject-refl, SameObject-trans, Sends, transmit-Sends,
}

module _ (os : Os) (fd : ℕ) (out : Output os fd) where
  -- The wait ends well or throws an `err`, and neither sends anything.
  abbrev pub Waits : Sock os.World → Result (Unit {0}) × Sock os.World → Type 0
  Waits s (ok _, t) = (out.accepted t.world fd ≡ out.accepted s.world fd) × SameObject s t
  Waits s (thrown (err e), t) = (out.accepted t.world fd ≡ out.accepted s.world fd) × SameObject s t
  Waits s (thrown (written n), t) = ⊥
  Waits s (thrown sockoob, t) = ⊥
  Waits s (running, t) = ⊥

  select-Waits :
      (operation : String) (s : Sock os.World) (v : Sys ℕ × os.World)
      → is_minus_one s.rep.stmo ≡ false
      → os.select writing s.rep.sock (timeval s.rep.stmo (pos 0)) s.world ≡ v
      → Keeps out.accepted fd s.world v
      → Waits s (before_write os operation s)
  unfolding before_write is_writeready
  select-Waits operation s (done n, w) b e k = elim (Bool-cases (n == 0)) [
    | inl z ↦ rw (b, e, z) (k, record { rep = refl; get = refl; put = refl; sockname = refl })
    | inr z ↦ rw (b, e, z) (k, record { rep = refl; get = refl; put = refl; sockname = refl })
  ]
  select-Waits operation s (fails x, w) b e k =
      rw (b, e) (k, record { rep = refl; get = refl; put = refl; sockname = refl })

  pub before_write-Waits :
      (operation : String) (s : Sock os.World)
      → s.rep.sock ≡ fd
      → Waits s (before_write os operation s)
  unfolding before_write
  before_write-Waits operation s at = elim (Bool-cases (is_minus_one s.rep.stmo)) [
    | inl b ↦ rw b (refl, SameObject-refl s)
    | inr b ↦ select-Waits operation s _ b refl (rw at (out.write_select writing _ s.world))
  ]

  -- How `write` ends. An `err` is thrown before the first byte is sent.
  abbrev pub Writes : List ℕ → Sock os.World → Result ℕ × Sock os.World → Type 0
  Writes bs s (ok n, t) =
      (n ≡ length bs) × (out.accepted t.world fd ≡ out.accepted s.world fd ++ bs) × SameObject s t
  Writes bs s (thrown (written k), t) =
      (k < length bs)
      × (out.accepted t.world fd ≡ out.accepted s.world fd ++ take k bs)
      × SameObject s t
  Writes bs s (thrown (err e), t) =
      (out.accepted t.world fd ≡ out.accepted s.world fd) × SameObject s t
  Writes bs s (thrown sockoob, t) = ⊥
  Writes bs s (running, t) = ⊥

  Sends-Writes :
      (bs : List ℕ) (s t : Sock os.World) (r : Result ℕ × Sock os.World)
      → out.accepted t.world fd ≡ out.accepted s.world fd
      → SameObject s t
      → Sends os fd out.accepted bs 0 t r
      → Writes bs s r
  Sends-Writes bs s t (ok n, u) e same (e', a, same') =
      (omega (arith, e'), rw (a, e), SameObject-trans same same')
  Sends-Writes bs s t (thrown (written m), u) e same (k, e', l, a, same') =
      let m-k : m ≡ k = omega (arith, e') in rw m-k (l, rw (a, e), SameObject-trans same same')
  Sends-Writes bs s t (thrown (err x), u) e same p = absurd p
  Sends-Writes bs s t (thrown sockoob, u) e same p = p
  Sends-Writes bs s t (running, u) e same p = p

  after_wait :
      (fuel : ℕ) (bs : List ℕ) (s : Sock os.World) (r : Result (Unit {0}) × Sock os.World)
      → s.rep.sock ≡ fd
      → length bs < fuel
      → before_write os "sockbuf::write" s ≡ r
      → Waits s r
      → Writes bs s (write os fuel bs s)
  unfolding write
  after_wait fuel bs s (ok _, t) at h e (a, same) =
      let at' : t.rep.sock ≡ fd = ap (λ r. r.sock) same.rep ∙ at in
      let sends = transmit-Sends os fd out.accepted (os.write fd) out.write_takes fuel bs 0 t h in
      rw e (
        Sends-Writes bs s t _ a same (
          subst (λ d. Sends os fd out.accepted bs 0 t (transmit os (os.write d) fuel bs 0 t))
            (sym at') sends))
  after_wait fuel bs s (thrown (err x), t) at h e p = rw e p
  after_wait fuel bs s (thrown (written n), t) at h e p = absurd p
  after_wait fuel bs s (thrown sockoob, t) at h e p = absurd p
  after_wait fuel bs s (running, t) at h e p = absurd p

  -- `write`, with fuel above the length of the bytes, always ends. If it returns, it returns
  -- their number and the system has accepted all of them. If it throws a number, the system has
  -- accepted exactly that many, and fewer than all. If it throws an `err`, it has accepted
  -- none. It never throws `sockoob`, and leaves the object's buffers alone.
  pub write-Writes :
      (fuel : ℕ) (bs : List ℕ) (s : Sock os.World)
      → s.rep.sock ≡ fd
      → length bs < fuel
      → Writes bs s (write os fuel bs s)
  write-Writes fuel bs s at h =
      after_wait fuel bs s _ at h refl (before_write-Waits "sockbuf::write" s at)
