-- ===== src/Sockbuf/Unmoved/Buffered.antt =====
-- What the virtual functions of `sockbuf` (socket++/sockstream.cpp) leave alone: an observation of the
-- system that `write` leaves as it is, or `read`, and the buffer of the other direction.
use cpr.Common.{
  ℕ, zero, suc, ◌+◌, ◌-◌, ◌≡◌, refl, List, [], ◌∷◌, ◌++◌, ◌&&◌, ltb, leb, Bool-cases, inl, inr,
  Option, none, some, Result, ok, thrown, running, written, err, sockoob, Action, take, drop,
  length, pure, ◌>>=◌,
}
use cpr.Os.{Os}
use cpr.Sockbuf.State.{Sock, PutArea, GetArea}
use cpr.Sockbuf.Io.{read, write}
use cpr.Sockbuf.Buffer.{
  sync, sync_on, after_write, partial_write, overflow, overflow_on, xsputn, put_chars, room,
  underflow, underflow_on, after_read, xsgetn, take_chars, gbump, showmanyc, chars_of,
}
use cpr.Sockbuf.Unmoved.{Unmoved, follow-same, if_Unmoved}

option-Unmoved :
    {W A B : Type 0} (seen : W → List ℕ) (k : Option A → Action (Sock W) B)
    → Unmoved seen (k none)
    → ((a : A) → Unmoved seen (k (some a)))
    → (o : Option A) → Unmoved seen (k o)
option-Unmoved seen k n m none = n
option-Unmoved seen k n m (some a) = m a

module _ (os : Os) (seen : os.World → List ℕ)
    (write-keeps : (fuel : ℕ) (bs : List ℕ) → Unmoved seen (write os fuel bs)) where
  after_write-same :
      (p : PutArea) (r : Result ℕ × Sock os.World) (xs : List ℕ)
      → seen r.1.world ≡ xs
      → seen (after_write p r).1.world ≡ xs
  unfolding after_write partial_write
  after_write-same p (ok n, s) xs e = e
  after_write-same p (thrown (written zero), s) xs e = e
  after_write-same p (thrown (written (suc n)), s) xs e = e
  after_write-same p (thrown (err x), s) xs e = e
  after_write-same p (thrown sockoob, s) xs e = e
  after_write-same p (running, s) xs e = e

  sync_on-Unmoved : (fuel : ℕ) (o : Option PutArea) → Unmoved seen (sync_on os fuel o)
  unfolding sync_on
  sync_on-Unmoved fuel none s = refl
  sync_on-Unmoved fuel (some p) s = elim (Bool-cases (ltb 0 p.pptr && leb p.pptr p.epptr)) [
    | inl b ↦ rw b (
        after_write-same p (write os fuel (take p.pptr p.pmem) s) (seen s.world)
          (write-keeps fuel (take p.pptr p.pmem) s))
    | inr b ↦ rw b refl
  ]

  pub sync-Unmoved : (fuel : ℕ) → Unmoved seen (sync os fuel)
  unfolding sync
  sync-Unmoved fuel s = sync_on-Unmoved fuel s.put s

  overflow_on-Unmoved : (fuel : ℕ) (o : Option PutArea) → Unmoved seen (overflow_on os fuel o none)
  unfolding overflow_on
  overflow_on-Unmoved fuel none s = refl
  overflow_on-Unmoved fuel (some p) s =
      follow-same seen (λ r. pure (some r)) (sync os fuel s) (seen s.world) (sync-Unmoved fuel s)
        (λ r t. refl)

  pub xsputn-Unmoved : (fuel rounds : ℕ) (bs : List ℕ) → Unmoved seen (xsputn os fuel rounds bs)
  unfolding xsputn overflow put_chars
  xsputn-Unmoved fuel zero bs s = refl
  xsputn-Unmoved fuel (suc rounds) bs s =
      if_Unmoved seen (leb (length bs) (room s)) _ _ (λ t. refl)
        (λ t.
          follow-same seen next (overflow os fuel none (put_chars (take (room s) bs) t))
            (seen t.world) (overflow_on-Unmoved fuel _ (put_chars (take (room s) bs) t))
            (option-Unmoved seen next (λ u. refl)
              (λ r u.
                follow-same seen (λ more. pure (room s + more)) _ (seen u.world)
                  (xsputn-Unmoved fuel rounds (drop (room s) bs) u) (λ more v. refl))))
        s
    where
      next : Option ℕ → Action (Sock os.World) ℕ
      next c = elim c [
        | none ↦ pure (room s)
        | some _ ↦ (xsputn os fuel rounds (drop (room s) bs) >>= λ more. pure (room s + more))
      ]

module _ (os : Os) (seen : os.World → List ℕ)
    (read-keeps : (n : ℕ) → Unmoved seen (read os n)) where
  after_read-Unmoved : (g : GetArea) (xs : List ℕ) → Unmoved seen (after_read os g xs)
  unfolding after_read
  after_read-Unmoved g [] s = refl
  after_read-Unmoved g (x ∷ xs) s = refl

  underflow_on-Unmoved : (o : Option GetArea) → Unmoved seen (underflow_on os o)
  unfolding underflow_on
  underflow_on-Unmoved none s = refl
  underflow_on-Unmoved (some g) s = elim (Bool-cases (ltb g.gptr g.egptr)) [
    | inl b ↦ rw b refl
    | inr b ↦ rw b (
        follow-same seen (after_read os g) (read os s.rep.gend s) (seen s.world)
          (read-keeps s.rep.gend s) (after_read-Unmoved g))
  ]

  pub underflow-Unmoved : Unmoved seen (underflow os)
  unfolding underflow
  underflow-Unmoved s = underflow_on-Unmoved s.get s

  pub xsgetn-Unmoved : (rounds n : ℕ) → Unmoved seen (xsgetn os rounds n)
  unfolding xsgetn take_chars gbump
  xsgetn-Unmoved zero n s = refl
  xsgetn-Unmoved (suc rounds) n s =
      if_Unmoved seen (leb n (showmanyc s)) _ _ (λ t. refl)
        (λ t.
          follow-same seen (next (chars_of (showmanyc s) t.get))
            (underflow os (gbump (showmanyc s) t)) (seen t.world)
            (underflow-Unmoved (gbump (showmanyc s) t))
            (option-Unmoved seen (next (chars_of (showmanyc s) t.get)) (λ u. refl)
              (λ c u.
                follow-same seen (joined (chars_of (showmanyc s) t.get)) _ (seen u.world)
                  (xsgetn-Unmoved rounds (n - showmanyc s) u) (λ more v. refl))))
        s
    where
      joined : List ℕ → List ℕ × ℕ → Action (Sock os.World) (List ℕ × ℕ)
      joined xs p = pure (xs ++ p.0, showmanyc s + p.1)

      next : List ℕ → Option ℕ → Action (Sock os.World) (List ℕ × ℕ)
      next xs c = elim c [
        | none ↦ pure (xs, showmanyc s)
        | some _ ↦ (xsgetn os rounds (n - showmanyc s) >>= joined xs)
      ]
