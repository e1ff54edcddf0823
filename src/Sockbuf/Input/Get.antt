-- ===== src/Sockbuf/Input/Get.antt =====
-- `uflow` and `xsgetn` (socket++/sockstream.cpp).
use mathlib.Core.Path.{ap₂}
use cpr.Common.{
  ℕ, zero, suc, ◌+◌, ◌-◌, ◌≤◌, ◌<◌, ◌≡◌, refl, sym, ap, ◌∙◌, List, [], ◌∷◌, ◌++◌, Option, none,
  some, true, false, arith, Result, ok, thrown, running, written, err, sockoob, take, drop, length,
  leb, Bool-cases, inl, inr, take-append_left, take-append-drop, follow, length-take, length-drop,
  take-add, drop-drop, take_all, drop_all, min, length-append,
}
use cpr.Os.{Os}
use cpr.Os.Laws.{Input}
use cpr.Sockbuf.State.{Sock}
use cpr.Sockbuf.Buffer.{underflow, uflow, gbump, available, showmanyc, take_chars, xsgetn, chars_of}
use cpr.Sockbuf.Input.Area.{GetValid, unread, length-unread}
use cpr.Sockbuf.Input.Underflow.{
  SameOutput, SameOutput-trans, stream, IsReader, IsReader-same, Shows, underflow-Shows, Takes,
  gbump-stream,
}

module _ (os : Os) (fd : ℕ) (inp : Input os fd) where
  after_underflow-Takes :
      (s : Sock os.World) (r : Result (Option ℕ) × Sock os.World)
      → IsReader os fd inp s
      → underflow os s ≡ r
      → Shows os fd inp s r
      → Takes os fd inp s (uflow os s)
  unfolding uflow
  after_underflow-Takes s (ok none, t) w e p = rw e p
  after_underflow-Takes s (ok (some c), t) w e (l, k, (h, v, same)) =
      let (_, u, v', same') = gbump-stream os fd inp 1 t (IsReader-same os fd inp s t w same v) l in
      let first : take 1 (stream os fd inp t) ≡ c ∷ [] =
        take-append_left 1 (unread t.get) (inp.pending t.world fd) l ∙ k in
      rw e (
        sym h ∙ sym (take-append-drop 1 (stream os fd inp t)) ∙ ap₂ ◌++◌ first (sym u),
        v',
        SameOutput-trans same same',
      )
  after_underflow-Takes s (thrown (err x), t) w e p = rw e p
  after_underflow-Takes s (thrown sockoob, t) w e p = rw e p
  after_underflow-Takes s (thrown (written n), t) w e p = absurd p
  after_underflow-Takes s (running, t) w e p = absurd p

  -- `uflow` on an object that may read returns the next character of the stream and leaves the
  -- rest of it, or returns `eofValue` and the stream is empty. If it throws, the stream is as
  -- before. The output side is untouched.
  pub uflow-Takes : (s : Sock os.World) → IsReader os fd inp s → Takes os fd inp s (uflow os s)
  uflow-Takes s w = after_underflow-Takes s _ w refl (underflow-Shows os fd inp s w)

  -- How `xsgetn` ends: with the next `n` characters, fewer only at the end of the stream, or with an
  -- exception after fewer than `n`, which are lost.
  abbrev pub Gets : ℕ → Sock os.World → Result (List ℕ × ℕ) × Sock os.World → Type 0
  Gets n s (ok (xs, k), t) =
      (xs ≡ take n (stream os fd inp s))
      × (k ≡ length xs)
      × (stream os fd inp t ≡ drop n (stream os fd inp s))
      × GetValid t.rep.gend t.get
      × SameOutput s t
  Gets n s (thrown (err e), t) =
      (k : ℕ) × (k < n)
      × (stream os fd inp t ≡ drop k (stream os fd inp s))
      × GetValid t.rep.gend t.get
      × SameOutput s t
  Gets n s (thrown sockoob, t) =
      (k : ℕ) × (k < n)
      × (stream os fd inp t ≡ drop k (stream os fd inp s))
      × GetValid t.rep.gend t.get
      × SameOutput s t
  Gets n s (thrown (written m), t) = ⊥
  Gets n s (running, t) = ⊥

  join-Gets :
      (n k : ℕ) (xs : List ℕ) (s t : Sock os.World) (r : Result (List ℕ × ℕ) × Sock os.World)
      → k ≤ n
      → xs ≡ take k (stream os fd inp s)
      → length xs ≡ k
      → stream os fd inp t ≡ drop k (stream os fd inp s)
      → SameOutput s t
      → Gets (n - k) t r
      → Gets n s (follow (λ (p : List ℕ × ℕ) u. (ok (xs ++ p.0, k + p.1), u)) r)
  join-Gets n k xs s t (ok (ys, m), u) h x l d same (y, c, e, v, same') =
      let S = stream os fd inp s in
      (
        ap₂ ◌++◌ x (y ∙ ap (take (n - k)) d)
            ∙ take-add k (n - k) S
            ∙ ap (λ j. take j S) (omega arith),
        omega (arith, length-append xs ys, c, l),
        e ∙ ap (drop (n - k)) d ∙ drop-drop (n - k) k S ∙ ap (λ j. drop j S) (omega arith),
        v,
        SameOutput-trans same same',
      )
  join-Gets n k xs s t (thrown (err y), u) h x l d same (m, lt, e, v, same') =
      (k + m, omega arith, e ∙ ap (drop m) d ∙ drop-drop m k _, v, SameOutput-trans same same')
  join-Gets n k xs s t (thrown sockoob, u) h x l d same (m, lt, e, v, same') =
      (k + m, omega arith, e ∙ ap (drop m) d ∙ drop-drop m k _, v, SameOutput-trans same same')
  join-Gets n k xs s t (thrown (written m), u) h x l d same p = p
  join-Gets n k xs s t (running, u) h x l d same p = p

  xsgetn_fits :
      (rounds n : ℕ) (s : Sock os.World)
      → IsReader os fd inp s
      → leb n (showmanyc s) ≡ true
      → Gets n s (xsgetn os (suc rounds) n s)
  unfolding xsgetn showmanyc take_chars
  xsgetn_fits rounds n s w b =
      let l : n ≤ length (unread s.get) = ground (arith, length-unread s.rep.gend s.get w.valid) in
      let (c, u, v, same) = gbump-stream os fd inp n s w l in
      rw b (
        c,
        omega (
          arith,
          ap length c,
          length-take n (stream os fd inp s),
          length-append (unread s.get) (inp.pending s.world fd),
        ),
        u,
        v,
        same,
      )

  after_underflow-Gets :
      (rounds n : ℕ) (s : Sock os.World) (r : Result (Option ℕ) × Sock os.World)
      → IsReader os fd inp s
      → leb n (available s.get) ≡ false
      → underflow os (gbump (available s.get) s) ≡ r
      → Shows os fd inp (gbump (available s.get) s) r
      → ((u : Sock os.World)
          → IsReader os fd inp u
          → SameOutput s u
          → 0 < length (unread u.get)
          → Gets (n - available s.get) u (xsgetn os rounds (n - available s.get) u))
      → Gets n s (xsgetn os (suc rounds) n s)
  unfolding xsgetn showmanyc take_chars
  after_underflow-Gets rounds n s r w b e p ih = go r e p
    where
      k : ℕ
      k = available s.get

      lt : k < n
      lt = ground arith

      fits : k ≤ length (unread s.get)
      fits = omega (arith, length-unread s.rep.gend s.get w.valid)

      S : List ℕ
      S = stream os fd inp s

      c : chars_of k s.get ≡ take k S
      c = (gbump-stream os fd inp k s w fits).0

      lc : length (chars_of k s.get) ≡ k
      lc = omega (
        arith,
        ap length c,
        length-take k S,
        length-append (unread s.get) (inp.pending s.world fd),
        fits,
      )

      d : stream os fd inp (gbump k s) ≡ drop k S
      d = (gbump-stream os fd inp k s w fits).1

      same0 : SameOutput s (gbump k s)
      same0 = (gbump-stream os fd inp k s w fits).3

      go :
          (r : Result (Option ℕ) × Sock os.World)
          → underflow os (gbump k s) ≡ r
          → Shows os fd inp (gbump k s) r
          → Gets n s (xsgetn os (suc rounds) n s)
      go (ok none, t) e (z, (h, v, same)) =
          let short : length S ≤ k = omega (arith, ap length (sym d ∙ z), length-drop k S) in
          rw (b, e)
            (
              c ∙ take_all k S short ∙ sym (take_all n S (omega (arith, short, lt))),
              sym lc,
              h ∙ z ∙ sym (drop_all n S (omega (arith, short, lt))),
              v,
              SameOutput-trans same0 same,
            )
      go (ok (some x), t) e (l, q, (h, v, same)) =
          let same' = SameOutput-trans same0 same in
          rw (b, e)
            (join-Gets n k (chars_of k s.get) s t _ (omega (arith, lt)) c lc (h ∙ d) same'
              (ih t (IsReader-same os fd inp s t w same' v) same' l))
      go (thrown (err y), t) e (h, v, same) =
          rw (b, e) (k, lt, h ∙ d, v, SameOutput-trans same0 same)
      go (thrown sockoob, t) e (h, v, same) =
          rw (b, e) (k, lt, h ∙ d, v, SameOutput-trans same0 same)
      go (thrown (written m), t) e p = absurd p
      go (running, t) e p = absurd p

  -- One round is spent if nothing is unread at first; from then on each takes a character.
  xsgetn_rounds :
      (rounds n : ℕ) (s : Sock os.World)
      → IsReader os fd inp s
      → n + 1 < rounds + min 1 (available s.get)
      → Gets n s (xsgetn os rounds n s)
  unfolding showmanyc
  xsgetn_rounds zero n s w h = absurd (omega arith)
  xsgetn_rounds (suc rounds) n s w h = elim (Bool-cases (leb n (available s.get))) [
    | inl b ↦ xsgetn_fits rounds n s w b
    | inr b ↦
        let fits : available s.get ≤ length (unread s.get) =
          omega (arith, length-unread s.rep.gend s.get w.valid) in
        let (_, _, v, same) = gbump-stream os fd inp (available s.get) s w fits in
        after_underflow-Gets rounds n s _ w b refl
          (underflow-Shows os fd inp (gbump (available s.get) s)
            (IsReader-same os fd inp s _ w same v))
          (λ u wu same' l.
            let lt : available s.get < n = ground arith in
            xsgetn_rounds rounds (n - available s.get) u wu
              (omega (arith, length-unread u.rep.gend u.get wu.valid)))
  ]

  pub xsgetn-Gets :
      (rounds n : ℕ) (s : Sock os.World)
      → IsReader os fd inp s
      → n + 1 < rounds
      → Gets n s (xsgetn os rounds n s)
  xsgetn-Gets rounds n s w h = xsgetn_rounds rounds n s w (omega arith)
