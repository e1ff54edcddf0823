-- ===== src/Sockbuf/Output/Ending.antt =====
-- The end of a `sockbuf`, and its copies (socket++/sockstream.cpp): what becomes of the characters
-- that wait in the put area.
use cpr.Common.{
  ℕ, suc, leb, ◌<◌, ◌≡◌, refl, sym, ap, ◌∙◌, subst, List, [], ◌∷◌, ◌++◌, append-nil, ◌⊎◌, inl, inr,
  true, false, ◌==◌, Bool-cases, Option, none, some, Result, ok, thrown, running, err, written,
  sockoob, follow, pure, ◌>>=◌, arith, if◌then◌else◌, length,
}
use cpr.Os.{Os, Sys, done, fails}
use cpr.Os.Laws.{Output, Keeps}
use cpr.Sockbuf.State.{Sock, PutArea, settle, or_throw}
use cpr.Sockbuf.Buffer.{
  sync, overflow, overflow_on, xsputn, xsgetn, showmanyc, room, put_chars, take_chars, gbump,
  underflow, underflow_on, sync_on,
}
use cpr.Sockbuf.Lifecycle.{destroy, release, copy_construct}
use cpr.Sockbuf.Output.Area.{is_open}
use cpr.Sockbuf.Output.Flush.{history, Synced, sync-Synced}
use cpr.Sockbuf.Output.Put.{IsWriter}

-- On a copy of a `sockbuf`, `xsputn` of a text that is not empty returns 0, `sync` returns 0 and
-- `xsgetn` of at least one character returns 0 and copies nothing. Nothing changes, and no system
-- call is made.
pub copy_construct-mute :
    (os : Os) (fuel rounds c n : ℕ) (bs : List ℕ) (s : Sock os.World)
    → let t = copy_construct s in
      (xsputn os fuel (suc rounds) (c ∷ bs) t ≡ (ok 0, t))
      × (sync os fuel t ≡ (ok 0, t))
      × (xsgetn os (suc rounds) (suc n) t ≡ (ok ([], 0), t))
unfolding copy_construct xsputn room put_chars overflow overflow_on sync sync_on xsgetn showmanyc
    take_chars gbump underflow underflow_on
copy_construct-mute os fuel rounds c n bs s =
    let full : leb (suc (length bs)) 0 ≡ false = ground arith in
    let wanting : leb (suc n) 0 ≡ false = ground arith in (rw full refl, refl, rw wanting refl)

module _ (os : Os) (fd : ℕ) (out : Output os fd) where
  -- What is known when the destructor ends: it has returned and the system has accepted every
  -- character, or it has thrown with every character accepted or still in the buffers, which are then
  -- not released.
  abbrev pub Ends : Sock os.World → Result (Unit {0}) × Sock os.World → Type 0
  Ends s (ok _, t) = out.accepted t.world fd ≡ history os fd out s
  Ends s (thrown (err e), t) =
      (out.accepted t.world fd ≡ history os fd out s)
      ⊎ ((history os fd out t ≡ history os fd out s) × (is_open t.put ≡ true))
  Ends s (thrown sockoob, t) = ⊥
  Ends s (thrown (written n), t) = ⊥
  Ends s (running, t) = ⊥

  closed-Ends :
      (s t : Sock os.World) (r : Sys (Unit {0}) × os.World)
      → out.accepted t.world fd ≡ history os fd out s
      → Keeps out.accepted fd t.world r
      → Ends s (
          let (o, t') = settle (record t { get = none; put = none }) r in
          or_throw "sockbuf::~sockbuf" o t')
  closed-Ends s t (done _, w) a k = k ∙ a
  closed-Ends s t (fails e, w) a k = inl (k ∙ a)

  flush_first :
      (fuel : ℕ) (s : Sock os.World) (o : Option PutArea)
      → is_open o ≡ true
      → overflow_on os fuel o none s ≡ (sync os fuel >>= λ r. pure (some r)) s
  unfolding overflow_on
  flush_first fuel s none e = absurd (ground (arith, e))
  flush_first fuel s (some p) e = refl

  module _ (close_keeps : (w : os.World) → Keeps out.accepted fd w (os.close fd w)) where
    last_use :
        (use_count : ℕ) (s : Sock os.World) (r : Result ℕ × Sock os.World)
        → s.rep.sock ≡ fd
        → is_open s.put ≡ true
        → Synced os fd out s r
        → Ends s (
            follow
              (λ _. if use_count == 1 then release os else pure tt)
              (follow (λ n. pure (some n)) r))
    last_use use_count s (ok n, t) at o (z, e, h, v, same) =
        let accepted : out.accepted t.world fd ≡ history os fd out s =
          sym (append-nil (out.accepted t.world fd))
          ∙ ap (λ xs. out.accepted t.world fd ++ xs) (sym e)
          ∙ h in
        elim (Bool-cases (use_count == 1)) [
          | inl b ↦ rw b (
              closed-Ends s t (os.close t.rep.sock t.world) accepted (
                subst (λ d. Keeps out.accepted fd t.world (os.close d t.world))
                  (sym (ap (λ r. r.sock) same.rep ∙ at)) (close_keeps t.world)))
          | inr b ↦ rw b accepted
        ]
    last_use use_count s (thrown (err e), t) at o (h, v, same) = inr (h, same.opened ∙ o)
    last_use use_count s (thrown (written k), t) at o p = p
    last_use use_count s (thrown sockoob, t) at o p = p
    last_use use_count s (running, t) at o p = p

    -- The destructor of an object that may write, with fuel above the buffer's size, and for
    -- a system whose `close` accepts no bytes: if it returns, the system has accepted all
    -- that was put. If it throws, the system has accepted all, or what it has not accepted is
    -- still in the buffer, which is not released.
    pub destroy-Ends :
        (fuel use_count : ℕ) (s : Sock os.World)
        → IsWriter os fd out s
        → s.rep.pend < fuel
        → Ends s (destroy os fuel use_count s)
    unfolding destroy overflow
    destroy-Ends fuel use_count s w f =
        subst (λ r. Ends s (follow (λ _. if use_count == 1 then release os else pure tt) r))
          (sym (flush_first fuel s s.put w.opened))
          (last_use use_count s (sync os fuel s) w.at w.opened
            (sync-Synced os fd out fuel s w.valid w.at f))
