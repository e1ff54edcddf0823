-- ===== src/Smtp/Stream/Getline.antt =====
-- `getline` on the stream of an `smtpbuf` (socket++/smtp.cpp).
use mathlib.Core.Path.{ap₂}
use cpr.Common.{
  ℕ, zero, suc, ◌≤◌, ◌<◌, ◌≡◌, refl, sym, ap, ◌∙◌, subst, List, [], ◌∷◌, ◌++◌, Option, none, some,
  false, true, ◌==◌, arith, Result, ok, thrown, running, written, err, sockoob, take, drop, length,
  take-append_left, take-append-drop, get_or,
}
use cpr.Os.{Os}
use cpr.Os.Laws.{Input}
use cpr.Sockbuf.State.{Sock}
use cpr.Sockbuf.Buffer.{gbump}
use cpr.Sockbuf.Input.Area.{unread}
use cpr.Sockbuf.Input.Underflow.{
  SameOutput, SameOutput-trans, stream, IsReader, IsReader-same, Shows, underflow-Shows,
  gbump-stream,
}
use cpr.Smtp.Stream.{
  Line, at_end, at_delim, at_full, at_throw, at_running, stored, peeked, getline_loop,
}
use cpr.Smtp.Stream.Array.{Plain}

abbrev head_of : List ℕ → ℕ
head_of xs = get_or xs 0 0

abbrev pub line_text : List ℕ → List ℕ
line_text xs = xs ++ 10 ∷ []

module _ (os : Os) (fd : ℕ) (inp : Input os fd) where
  abbrev pub Still : Sock os.World → Sock os.World → Type 0
  Still s t = IsReader os fd inp t × SameOutput s t

  -- Not all of `text` is gone, and what is left of it stands in front of `rest`.
  abbrev pub Cut : List ℕ → List ℕ → Sock os.World → Type 0
  Cut text rest t =
      (ys : List ℕ) × (zs : List ℕ) × (text ≡ ys ++ zs)
      × (0 < length zs)
      × (stream os fd inp t ≡ zs ++ rest)

  abbrev pub ReadsLine : List ℕ → List ℕ → Sock os.World → Line os.World → Type 0
  ReadsLine xs rest s (ys, at_delim, t) = (ys ≡ xs) × (stream os fd inp t ≡ rest) × Still s t
  ReadsLine xs rest s (ys, at_throw, t) = Cut (line_text xs) rest t × Still s t
  ReadsLine xs rest s (ys, at_end, t) = ⊥
  ReadsLine xs rest s (ys, at_full, t) = ⊥
  ReadsLine xs rest s (ys, at_running, t) = ⊥

  -- The character that `underflow` shows, taken.
  bumped :
      (s t : Sock os.World) (c : ℕ)
      → IsReader os fd inp s
      → Shows os fd inp s (ok (some c), t)
      → (stream os fd inp s ≡ c ∷ stream os fd inp (gbump 1 t)) × Still s (gbump 1 t)
  bumped s t c w (l, k, (h, v, same)) =
      let wt = IsReader-same os fd inp s t w same v in
      let (_, u, v', same') = gbump-stream os fd inp 1 t wt l in
      let first : take 1 (stream os fd inp t) ≡ c ∷ [] =
        take-append_left 1 (unread t.get) (inp.pending t.world fd) l ∙ k in
      (
        sym h ∙ sym (take-append-drop 1 (stream os fd inp t)) ∙ ap₂ ◌++◌ first (sym u),
        (IsReader-same os fd inp t (gbump 1 t) wt same' v', SameOutput-trans same same'),
      )

  Still-kept :
      (s t : Sock os.World) (text rest : List ℕ)
      → IsReader os fd inp s
      → 0 < length text
      → stream os fd inp s ≡ text ++ rest
      → Shows os fd inp s (thrown sockoob, t)
      → Cut text rest t × Still s t
  Still-kept s t text rest w l e (h, v, same) =
      (([], text, refl, l, h ∙ e), (IsReader-same os fd inp s t w same v, same))

  -- The newline is next.
  at_newline :
      (rest : List ℕ) (s : Sock os.World) (other : ℕ → Sock os.World → Line os.World)
      (r : Result (Option ℕ) × Sock os.World)
      → IsReader os fd inp s
      → stream os fd inp s ≡ 10 ∷ rest
      → Shows os fd inp s r
      → ReadsLine [] rest s (peeked other r)
  at_newline rest s other (ok none, t) w e (z, k) = absurd (omega (arith, ap length (sym z ∙ e)))
  at_newline rest s other (ok (some c), t) w e q =
      let (d, still) = bumped s t c w q in
      let same : 10 ∷ rest ≡ c ∷ stream os fd inp (gbump 1 t) = sym e ∙ d in
      let newline : (c == 10) ≡ true = ground (arith, ap head_of same) in
      rw newline (refl, sym (ap (drop 1) same), still)
  at_newline rest s other (thrown (err x), t) w e q =
      Still-kept s t (10 ∷ []) rest w (omega arith) e q
  at_newline rest s other (thrown sockoob, t) w e q =
      Still-kept s t (10 ∷ []) rest w (omega arith) e q
  at_newline rest s other (thrown (written n), t) w e q = absurd q
  at_newline rest s other (running, t) w e q = absurd q

  stored-ReadsLine :
      (x : ℕ) (xs rest : List ℕ) (s t : Sock os.World) (l : Line os.World)
      → SameOutput s t
      → ReadsLine xs rest t l
      → ReadsLine (x ∷ xs) rest s (stored x l)
  stored-ReadsLine x xs rest s t (ys, at_delim, u) same (e, d, (w, same')) =
      (ap (◌∷◌ x) e, d, (w, SameOutput-trans same same'))
  stored-ReadsLine x xs rest s t (ys, at_throw, u) same ((front, zs, e, l, d), (w, same')) =
      ((x ∷ front, zs, ap (◌∷◌ x) e, l, d), (w, SameOutput-trans same same'))
  stored-ReadsLine x xs rest s t (ys, at_end, u) same q = q
  stored-ReadsLine x xs rest s t (ys, at_full, u) same q = q
  stored-ReadsLine x xs rest s t (ys, at_running, u) same q = q

  -- Another character is next.
  at_char :
      (x : ℕ) (xs rest : List ℕ) (s : Sock os.World) (loop : Sock os.World → Line os.World)
      (r : Result (Option ℕ) × Sock os.World)
      → IsReader os fd inp s
      → (x == 10) ≡ false
      → stream os fd inp s ≡ x ∷ (line_text xs ++ rest)
      → ((t : Sock os.World)
          → IsReader os fd inp t
          → stream os fd inp t ≡ line_text xs ++ rest
          → ReadsLine xs rest t (loop t))
      → Shows os fd inp s r
      → ReadsLine (x ∷ xs) rest s (peeked (λ c t. stored c (loop (gbump 1 t))) r)
  at_char x xs rest s loop (ok none, t) w n e ih (z, k) =
      absurd (omega (arith, ap length (sym z ∙ e)))
  at_char x xs rest s loop (ok (some c), t) w n e ih q =
      let (d, still) = bumped s t c w q in
      let same : x ∷ (line_text xs ++ rest) ≡ c ∷ stream os fd inp (gbump 1 t) = sym e ∙ d in
      let this : x ≡ c = ap head_of same in
      let other : (c == 10) ≡ false = subst (λ y. (y == 10) ≡ false) this n in
      rw other (
        subst (λ y. ReadsLine (x ∷ xs) rest s (stored y (loop (gbump 1 t)))) this
          (stored-ReadsLine x xs rest s (gbump 1 t) _ still.1
            (ih (gbump 1 t) still.0 (sym (ap (drop 1) same)))))
  at_char x xs rest s loop (thrown (err y), t) w n e ih q =
      Still-kept s t (line_text (x ∷ xs)) rest w (omega arith) e q
  at_char x xs rest s loop (thrown sockoob, t) w n e ih q =
      Still-kept s t (line_text (x ∷ xs)) rest w (omega arith) e q
  at_char x xs rest s loop (thrown (written m), t) w n e ih q = absurd q
  at_char x xs rest s loop (running, t) w n e ih q = absurd q

  pub getline_loop-ReadsLine :
      (room : ℕ) (xs rest : List ℕ) (s : Sock os.World)
      → IsReader os fd inp s
      → stream os fd inp s ≡ line_text xs ++ rest
      → Plain xs
      → length xs ≤ room
      → ReadsLine xs rest s (getline_loop os room s)
  unfolding getline_loop
  getline_loop-ReadsLine zero [] rest s w e p l =
      at_newline rest s _ _ w e (underflow-Shows os fd inp s w)
  getline_loop-ReadsLine (suc room) [] rest s w e p l =
      at_newline rest s _ _ w e (underflow-Shows os fd inp s w)
  getline_loop-ReadsLine zero (x ∷ xs) rest s w e p l = absurd (omega arith)
  getline_loop-ReadsLine (suc room) (x ∷ xs) rest s w e (z, n, p) l =
      at_char x xs rest s (getline_loop os room) _ w n e
        (λ t wt et. getline_loop-ReadsLine room xs rest t wt et p (omega arith))
        (underflow-Shows os fd inp s w)
