-- ===== src/Sockbuf/Unmoved.antt =====
-- What the unbuffered calls of `sockbuf` (socket++/sockstream.cpp) leave alone: an observation of the
-- system that none of the system calls changes is as before.
pub mod Buffered
pub mod Directions
use cpr.Common.{
  ℕ, zero, suc, ◌+◌, ◌≡◌, refl, ◌∙◌, List, [], ◌∷◌, Bool, true, false, ◌==◌, Option, none, some, ℤ,
  String, Result, ok, thrown, running, written, Action, follow, if◌then◌else◌, is_minus_one, pos,
  throw, drop,
}
use cpr.Os.{Os, Sys, done, fails, Call, Watch, Request, reading, writing, siocatmark}
use cpr.Sockbuf.State.{Sock, settle, call, or_throw}
use cpr.Sockbuf.Io.{
  wait_for, timeval, read, write, transmit, before_read, before_write, wait_or_throw, throw_at_mark,
  atmark, is_readready, is_writeready,
}

-- An observation of the system that a call leaves as it is.
module _ {W : Type 0} (seen : W → List ℕ) where
  abbrev pub Unmoved : {A : Type 0} → Action (Sock W) A → Type 0
  Unmoved m = (s : Sock W) → seen (m s).1.world ≡ seen s.world

  follow-same :
      {A B : Type 0} (f : A → Action (Sock W) B) (r : Result A × Sock W) (xs : List ℕ)
      → seen r.1.world ≡ xs
      → ((a : A) → Unmoved (f a))
      → seen (follow f r).1.world ≡ xs
  follow-same f (ok a, s) xs e k = k a s ∙ e
  follow-same f (thrown x, s) xs e k = e
  follow-same f (running, s) xs e k = e

  settled-same :
      {A : Type 0} (operation : String) (s : Sock W) (r : Sys A × W) (xs : List ℕ)
      → seen r.1 ≡ xs
      → seen (let (o, t) = settle s r in or_throw operation o t).1.world ≡ xs
  settled-same operation s (done a, w) xs e = e
  settled-same operation s (fails c, w) xs e = e

  called-same :
      {A : Type 0} (s : Sock W) (r : Sys A × W) (xs : List ℕ)
      → seen r.1 ≡ xs
      → seen (settle s r).1.world ≡ xs
  called-same s (done a, w) xs e = e
  called-same s (fails c, w) xs e = e

  if_Unmoved :
      {A : Type 0} (b : Bool) (m k : Action (Sock W) A)
      → Unmoved m
      → Unmoved k
      → Unmoved (if b then m else k)
  if_Unmoved true m k um uk = um
  if_Unmoved false m k um uk = uk

-- The calls before a transfer, for an observation that `select` and `ioctl` leave as it is.
module _ (os : Os) (seen : os.World → List ℕ)
    (select_keeps : (watch : Watch) (fd : ℕ) (t : Option (ℤ × ℤ)) (w : os.World)
      → seen (os.select watch fd t w).1 ≡ seen w)
    (ioctl_keeps : (fd : ℕ) (r : Request) (arg : ℤ) (w : os.World)
      → seen (os.ioctl fd r arg w).1 ≡ seen w) where
  waits :
      (operation : String) (tmo : ℤ) (ready : ℤ → Action (Sock os.World) ℕ)
      → Unmoved seen (ready tmo)
      → Unmoved seen (wait_or_throw os operation tmo ready)
  waits operation tmo ready k =
      if_Unmoved seen (is_minus_one tmo) _ _ (λ s. refl)
        (λ s.
          follow-same seen _ (ready tmo s) (seen s.world) (k s)
            (λ n. if_Unmoved seen (n == 0) _ _ (λ t. refl) (λ t. refl)))

  at_mark : (b : Bool) → Unmoved seen (throw_at_mark os b)
  unfolding atmark
  at_mark false s = refl
  at_mark true s =
      follow-same seen _ (atmark os s) (seen s.world)
        (follow-same seen _ _ (seen s.world)
          (settled-same seen "sockbuf::atmark" s (os.ioctl s.rep.sock siocatmark (pos 0) s.world)
            (seen s.world) (ioctl_keeps s.rep.sock siocatmark (pos 0) s.world))
          (λ arg t. refl))
        (λ mark. if_Unmoved seen mark _ _ (λ t. refl) (λ t. refl))

  ready-Unmoved :
      (operation : String) (watch : Watch) (sec usec : ℤ)
      → Unmoved seen (wait_for os operation watch sec usec)
  ready-Unmoved operation watch sec usec s =
      settled-same seen operation s (os.select watch s.rep.sock (timeval sec usec) s.world)
        (seen s.world) (select_keeps watch s.rep.sock (timeval sec usec) s.world)

  before_read-Unmoved : (operation : String) → Unmoved seen (before_read os operation)
  unfolding before_read is_readready
  before_read-Unmoved operation s =
      follow-same seen _
        (wait_or_throw os operation s.rep.rtmo (λ tmo. is_readready os tmo (pos 0)) s)
        (seen s.world)
        (waits operation s.rep.rtmo (λ tmo. is_readready os tmo (pos 0))
          (ready-Unmoved "sockbuf::is_readready" reading s.rep.rtmo (pos 0)) s)
        (λ _. at_mark s.rep.oob)

  before_write-Unmoved : (operation : String) → Unmoved seen (before_write os operation)
  unfolding before_write is_writeready
  before_write-Unmoved operation s =
      waits operation s.rep.stmo (λ tmo. is_writeready os tmo (pos 0))
        (ready-Unmoved "sockbuf::is_writeready" writing s.rep.stmo (pos 0)) s

  pub read-Unmoved :
      ((fd n : ℕ) (w : os.World) → seen (os.read fd n w).1 ≡ seen w)
      → (n : ℕ) → Unmoved seen (read os n)
  unfolding read
  read-Unmoved read_keeps n s =
      follow-same seen _ (before_read os "sockbuf::read" s) (seen s.world)
        (before_read-Unmoved "sockbuf::read" s)
        (λ _ t.
          settled-same seen "sockbuf::read" t (os.read t.rep.sock n t.world) (seen t.world)
            (read_keeps t.rep.sock n t.world))

  transmit-Unmoved :
      (put : List ℕ → Call os.World ℕ) (fuel : ℕ) (bs : List ℕ) (wlen : ℕ)
      → ((xs : List ℕ) (w : os.World) → seen (put xs w).1 ≡ seen w)
      → Unmoved seen (transmit os put fuel bs wlen)
  unfolding transmit
  transmit-Unmoved put zero bs wlen k s = refl
  transmit-Unmoved put (suc fuel) [] wlen k s = refl
  transmit-Unmoved put (suc fuel) (b ∷ bs) wlen k s =
      follow-same seen next (call (put (b ∷ bs)) s) (seen s.world)
        (called-same seen s (put (b ∷ bs) s.world) (seen s.world) (k (b ∷ bs) s.world))
        (after (λ n. transmit-Unmoved put fuel (drop n (b ∷ bs)) (wlen + n) k))
    where
      next : Option ℕ → Action (Sock os.World) ℕ
      next o = elim o [
        | none ↦ throw (written wlen)
        | some n ↦ transmit os put fuel (drop n (b ∷ bs)) (wlen + n)
      ]

      after :
          ((n : ℕ) → Unmoved seen (transmit os put fuel (drop n (b ∷ bs)) (wlen + n)))
          → (o : Option ℕ) → Unmoved seen (next o)
      after again none t = refl
      after again (some n) t = again n t

  pub write-Unmoved :
      ((fd : ℕ) (xs : List ℕ) (w : os.World) → seen (os.write fd xs w).1 ≡ seen w)
      → (fuel : ℕ) (bs : List ℕ) → Unmoved seen (write os fuel bs)
  unfolding write
  write-Unmoved write_keeps fuel bs s =
      follow-same seen _ (before_write os "sockbuf::write" s) (seen s.world)
        (before_write-Unmoved "sockbuf::write" s)
        (λ _ t. transmit-Unmoved (os.write t.rep.sock) fuel bs 0 (write_keeps t.rep.sock) t)
