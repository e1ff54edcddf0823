-- ===== src/Sockbuf/Input/Underflow.antt =====
-- `underflow` and `uflow` (socket++/sockstream.cpp).
use mathlib.Core.Path.{ap₂}
use cpr.Common.{
  ℕ, ◌-◌, ◌≤◌, ◌<◌, ◌≡◌, refl, sym, ap, ◌∙◌, subst, List, [], ◌∷◌, ◌++◌, Option, none, some, true,
  false, arith, Result, ok, thrown, running, written, err, sockoob, take, drop, get_or, length, ltb,
  Bool-cases, inl, inr, take-append_left, drop-append_left, get_or-memcpy_zero, ltb→lt, follow,
  length-take,
}
use cpr.Os.{Os}
use cpr.Os.Laws.{Input}
use cpr.Sockbuf.State.{Sock, GetArea}
use cpr.Sockbuf.Buffer.{chars_of, underflow, underflow_on, after_read, gbump, available}
use cpr.Sockbuf.Output.Transfer.{SameObject}
use cpr.Sockbuf.Input.Area.{
  refilled, IsGet, GetValid, unread, can_read, take-unread, unread-refill, unread-advance,
}
use cpr.Sockbuf.Input.Wait.{Reads, read-Reads}

-- All but the get area, errno and the system is as it was.
pub record SameOutput {W : Type 0} (s t : Sock W) : Type 0 where
  pub rep : t.rep ≡ s.rep
  pub put : t.put ≡ s.put
  pub sockname : t.sockname ≡ s.sockname
  pub opened : can_read t.get ≡ can_read s.get

pub SameOutput-trans :
    {W : Type 0} {s t u : Sock W} → SameOutput s t → SameOutput t u → SameOutput s u
SameOutput-trans p q = record {
  rep = q.rep ∙ p.rep;
  put = q.put ∙ p.put;
  sockname = q.sockname ∙ p.sockname;
  opened = q.opened ∙ p.opened;
}

module _ (os : Os) (fd : ℕ) (inp : Input os fd) where
  -- All that the program will read: unread in the buffer, or still to be delivered.
  abbrev pub stream : Sock os.World → List ℕ
  stream s = unread s.get ++ inp.pending s.world fd

  -- The object may read: its get area is there and valid, and its descriptor is `fd`.
  pub record IsReader (s : Sock os.World) : Type 0 where
    pub valid : GetValid s.rep.gend s.get
    pub opened : can_read s.get ≡ true
    pub at : s.rep.sock ≡ fd
    pub roomy : 0 < s.rep.gend

  pub IsReader-same :
      (s t : Sock os.World) → IsReader s → SameOutput s t → GetValid t.rep.gend t.get → IsReader t
  IsReader-same s t r same v = record {
    valid = v;
    opened = same.opened ∙ r.opened;
    at = ap (λ c. c.sock) same.rep ∙ r.at;
    roomy = subst (λ n. 0 < n) (sym (ap (λ c. c.gend) same.rep)) r.roomy;
  }

  abbrev pub Kept : Sock os.World → Sock os.World → Type 0
  Kept s t = (stream t ≡ stream s) × GetValid t.rep.gend t.get × SameOutput s t

  -- `underflow` shows the next character, and takes none.
  abbrev pub Shows : Sock os.World → Result (Option ℕ) × Sock os.World → Type 0
  Shows s (ok none, t) = (stream s ≡ []) × Kept s t
  Shows s (ok (some c), t) =
      (0 < length (unread t.get)) × (take 1 (unread t.get) ≡ c ∷ []) × Kept s t
  Shows s (thrown (err e), t) = Kept s t
  Shows s (thrown sockoob, t) = Kept s t
  Shows s (thrown (written n), t) = ⊥
  Shows s (running, t) = ⊥

  Kept-of_same :
      (s t : Sock os.World)
      → IsReader s
      → inp.pending t.world fd ≡ inp.pending s.world fd
      → SameObject s t
      → Kept s t
  Kept-of_same s t w e same = (
    ap₂ (λ o xs. unread o ++ xs) same.get e,
    subst (λ n. GetValid n t.get) (sym (ap (λ c. c.gend) same.rep))
        (subst (GetValid s.rep.gend) (sym same.get) w.valid),
    record {
      rep = same.rep;
      put = same.put;
      sockname = same.sockname;
      opened = ap can_read same.get;
    },
  )

  after_read-Shows :
      (s : Sock os.World) (g : GetArea) (r : Result (List ℕ) × Sock os.World)
      → s.get ≡ some g
      → unread (some g) ≡ []
      → IsReader s
      → Reads os fd inp s.rep.gend s r
      → Shows s (follow (after_read os g) r)
  unfolding after_read
  after_read-Shows s g (ok [], t) e z w (l, p, last, same) =
      (ap₂ ◌++◌ (ap unread e ∙ z) (last w.roomy refl), Kept-of_same s t w (sym p) same)
  after_read-Shows s g (ok (x ∷ xs), t) e z w (l, p, last, same) =
      let v : IsGet s.rep.gend g = subst (GetValid s.rep.gend) e w.valid in
      let (u, v') = unread-refill s.rep.gend g.gmem x xs v.sized l in
      (
        omega (arith, ap length u),
        ap (take 1) u ∙ ap (λ c. c ∷ []) (sym (get_or-memcpy_zero g.gmem x xs 0)),
        (
          ap (λ ys. ys ++ inp.pending t.world fd) u
              ∙ sym p
              ∙ sym (ap (λ ys. ys ++ inp.pending s.world fd) (ap unread e ∙ z)),
          subst (λ n. GetValid n (some (refilled g.gmem (x ∷ xs))))
              (sym (ap (λ c. c.gend) same.rep)) v',
          record {
            rep = same.rep;
            put = same.put;
            sockname = same.sockname;
            opened = sym (ap can_read e);
          },
        ),
      )
  after_read-Shows s g (thrown (err y), t) e z w (p, same) = Kept-of_same s t w p same
  after_read-Shows s g (thrown sockoob, t) e z w (p, same) = Kept-of_same s t w p same
  after_read-Shows s g (thrown (written n), t) e z w p = p
  after_read-Shows s g (running, t) e z w p = p

  underflow_on-Shows :
      (s : Sock os.World) (o : Option GetArea)
      → s.get ≡ o
      → IsReader s
      → Shows s (underflow_on os o s)
  unfolding underflow_on
  underflow_on-Shows s none e w = let no : false ≡ true = ap can_read (sym e) ∙ w.opened in cc
  underflow_on-Shows s (some g) e w = elim (Bool-cases (ltb g.gptr g.egptr)) [
    | inl b ↦
        let v : IsGet s.rep.gend g = subst (GetValid s.rep.gend) e w.valid in
        let c : take 1 (unread s.get) ≡ get_or g.gmem g.gptr 0 ∷ [] =
          ap (λ q. take 1 (unread q)) e ∙ take-unread s.rep.gend g v (ltb→lt g.gptr g.egptr b) in
        rw b (
          omega (arith, ap length c, length-take 1 (unread s.get)),
          c,
          (refl, w.valid, record { rep = refl; put = refl; sockname = refl; opened = refl }),
        )
    | inr b ↦
        let z : g.egptr - g.gptr ≡ 0 = ground arith in
        rw b (
          after_read-Shows s g _ e (ap (λ n. take n (drop g.gptr g.gmem)) z) w
            (read-Reads os fd inp s.rep.gend s w.at))
  ]

  pub underflow-Shows : (s : Sock os.World) → IsReader s → Shows s (underflow os s)
  unfolding underflow
  underflow-Shows s w = underflow_on-Shows s s.get refl w

  -- `uflow` takes the next character.
  abbrev pub Takes : Sock os.World → Result (Option ℕ) × Sock os.World → Type 0
  Takes s (ok none, t) = (stream s ≡ []) × Kept s t
  Takes s (ok (some c), t) = (stream s ≡ c ∷ stream t) × GetValid t.rep.gend t.get × SameOutput s t
  Takes s (thrown (err e), t) = Kept s t
  Takes s (thrown sockoob, t) = Kept s t
  Takes s (thrown (written n), t) = ⊥
  Takes s (running, t) = ⊥

  -- What `take_chars` leaves of the stream.
  pub gbump-stream :
      (k : ℕ) (s : Sock os.World)
      → IsReader s
      → k ≤ length (unread s.get)
      → (chars_of k s.get ≡ take k (stream s))
        × (stream (gbump k s) ≡ drop k (stream s))
        × GetValid (gbump k s).rep.gend (gbump k s).get
        × SameOutput s (gbump k s)
  unfolding gbump
  gbump-stream k s w h =
      let (c, u, v, o) = unread-advance s.rep.gend k s.get w.valid h in
      (
        c ∙ sym (take-append_left k (unread s.get) (inp.pending s.world fd) h),
        ap (λ xs. xs ++ inp.pending s.world fd) u
            ∙ sym (drop-append_left k (unread s.get) (inp.pending s.world fd) h),
        v,
        record { rep = refl; put = refl; sockname = refl; opened = o },
      )

-- With a character unread `underflow` asks nobody and changes nothing.
underflow_on_ready :
    (os : Os) (s : Sock os.World) (o : Option GetArea)
    → 0 < available o
    → (c : ℕ) × (underflow_on os o s ≡ (ok (some c), s))
unfolding underflow_on
underflow_on_ready os s none h = elim h [ ]
underflow_on_ready os s (some g) h =
    let b : ltb g.gptr g.egptr ≡ true = ground arith in (get_or g.gmem g.gptr 0, rw b)

pub underflow_ready :
    (os : Os) (s : Sock os.World)
    → 0 < available s.get
    → (c : ℕ) × (underflow os s ≡ (ok (some c), s))
unfolding underflow
underflow_ready os s h = underflow_on_ready os s s.get h
