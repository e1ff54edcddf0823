-- ===== src/Sockbuf/Output/Transfer.antt =====
-- The loop of `write`, `send` and `sendto` (socket++/sockstream.cpp).
use cpr.Common.{
  ℕ, zero, suc, ◌+◌, ◌≤◌, ◌<◌, ◌≡◌, refl, List, [], ◌∷◌, ◌++◌, append-nil, append_assoc, arith,
  Result, ok, thrown, running, written, err, sockoob, take, drop, length, take-append-drop,
  length-drop, take-add, ◌∙◌,
}
use cpr.Os.{Os, Sys, done, fails, Call}
use cpr.Os.Laws.{Transfers}
use cpr.Sockbuf.State.{Sock}
use cpr.Sockbuf.Io.{transmit}

-- All of the object but errno and the system is as it was.
pub record SameObject {W : Type 0} (s t : Sock W) : Type 0 where
  pub rep : t.rep ≡ s.rep
  pub get : t.get ≡ s.get
  pub put : t.put ≡ s.put
  pub sockname : t.sockname ≡ s.sockname

pub SameObject-refl : {W : Type 0} (s : Sock W) → SameObject s s
SameObject-refl s = record { rep = refl; get = refl; put = refl; sockname = refl }

pub SameObject-trans :
    {W : Type 0} {s t u : Sock W} → SameObject s t → SameObject t u → SameObject s u
SameObject-trans p q = record {
  rep = q.rep ∙ p.rep;
  get = q.get ∙ p.get;
  put = q.put ∙ p.put;
  sockname = q.sockname ∙ p.sockname;
}

module _ (os : Os) (fd : ℕ) (accepted : os.World → ℕ → List ℕ) where
  -- How the loop ends: all bytes are accepted, or the number thrown says how many were.
  abbrev pub Sends : List ℕ → ℕ → Sock os.World → Result ℕ × Sock os.World → Type 0
  Sends bs wlen s (ok n, t) =
      (n ≡ wlen + length bs) × (accepted t.world fd ≡ accepted s.world fd ++ bs) × SameObject s t
  Sends bs wlen s (thrown (written m), t) =
      (k : ℕ) × (m ≡ wlen + k)
      × (k < length bs)
      × (accepted t.world fd ≡ accepted s.world fd ++ take k bs)
      × SameObject s t
  Sends bs wlen s (thrown (err e), t) = ⊥
  Sends bs wlen s (thrown sockoob, t) = ⊥
  Sends bs wlen s (running, t) = ⊥

  module _ (put : List ℕ → Call os.World ℕ)
      (takes : (bs : List ℕ) (w : os.World) → Transfers accepted fd bs w (put bs w)) where
    Sends-step :
        (bs : List ℕ) (n wlen : ℕ) (s t : Sock os.World) (r : Result ℕ × Sock os.World)
        → n ≤ length bs
        → accepted t.world fd ≡ accepted s.world fd ++ take n bs
        → SameObject s t
        → Sends (drop n bs) (wlen + n) t r
        → Sends bs wlen s r
    Sends-step bs n wlen s t (ok m, u) h e same (e', a, same') = (
      omega (arith, length-drop n bs, e'),
      rw (a, e, append_assoc (accepted s.world fd) (take n bs) (drop n bs), take-append-drop n bs),
      SameObject-trans same same',
    )
    Sends-step bs n wlen s t (thrown (written m), u) h e same (k, e', l, a, same') = (
      n + k,
      omega (arith, e'),
      omega (arith, length-drop n bs, l),
      rw (
        a,
        e,
        append_assoc (accepted s.world fd) (take n bs) (take k (drop n bs)),
        take-add n k bs,
      ),
      SameObject-trans same same',
    )
    Sends-step bs n wlen s t (thrown (err x), u) h e same p = p
    Sends-step bs n wlen s t (thrown sockoob, u) h e same p = p
    Sends-step bs n wlen s t (running, u) h e same p = p

    transfer-Sends :
        (fuel : ℕ) (b : ℕ) (bs : List ℕ) (wlen : ℕ) (s : Sock os.World) (v : Sys ℕ × os.World)
        → put (b ∷ bs) s.world ≡ v
        → Transfers accepted fd (b ∷ bs) s.world v
        → ((xs : List ℕ) (m : ℕ) (t : Sock os.World)
            → length xs < fuel
            → Sends xs m t (transmit os put fuel xs m t))
        → length bs < fuel
        → Sends (b ∷ bs) wlen s (transmit os put (suc fuel) (b ∷ bs) wlen s)
    unfolding transmit
    transfer-Sends fuel b bs wlen s (done n, w) e (l, p, a) ih h =
        rw (e, transmit)
          (Sends-step (b ∷ bs) n wlen s (record s { world = w }) _ l a
            (record { rep = refl; get = refl; put = refl; sockname = refl })
            (ih (drop n (b ∷ bs)) (wlen + n) (record s { world = w })
              (omega (arith, length-drop n (b ∷ bs), p))))
    transfer-Sends fuel b bs wlen s (fails x, w) e a ih h =
        rw (e, transmit)
          (
            0,
            omega arith,
            omega arith,
            rw (a, append-nil),
            record { rep = refl; get = refl; put = refl; sockname = refl },
          )

    -- With fuel beyond the number of bytes the loop ends.
    pub transmit-Sends :
        (fuel : ℕ) (bs : List ℕ) (wlen : ℕ) (s : Sock os.World)
        → length bs < fuel
        → Sends bs wlen s (transmit os put fuel bs wlen s)
    unfolding transmit
    transmit-Sends zero bs wlen s h = absurd (omega arith)
    transmit-Sends (suc fuel) [] wlen s h = (omega arith, rw append-nil, SameObject-refl s)
    transmit-Sends (suc fuel) (b ∷ bs) wlen s h =
        transfer-Sends fuel b bs wlen s (put (b ∷ bs) s.world) refl (takes (b ∷ bs) s.world)
          (transmit-Sends fuel) (omega arith)
