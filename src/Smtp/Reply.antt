-- ===== src/Smtp/Reply.antt =====
-- `get_response` (socket++/smtp.cpp): what it does with the characters that stand in the buffer.
use mathlib.Core.Path.{ap₂}
use cpr.Common.{
  append_to, ℕ, zero, suc, ◌+◌, ◌<◌, ◌≤◌, ◌≡◌, refl, ap, ◌∙◌, List, [], ◌∷◌, ◌++◌, append_assoc,
  arith, Bool, true, false, ◌==◌, Option, some, none, Result, ok, running, take, drop, get_or,
  length, ltb, lt→ltb, ge→ltb, if◌then◌else◌, Bool-cases, inl, inr, length-append, take_all,
}
use cpr.Os.{Os}
use cpr.Sockbuf.Buffer.{gbump, available}
use cpr.Sockbuf.Input.Area.{GetValid, unread, length-unread, unread-advance}
use cpr.Sockbuf.Input.Underflow.{underflow_ready}
use cpr.Lines.{
  NoCrlf, ended, joined, length-ended, get_or-append, take-ended, drop-ended, append_to-append,
}
use cpr.Smtp.{Smtp, get_response, reply_line, find_crlf, write_line, line_of, append_to}

module _ (os : Os) where
  line_of-unread :
      (s : Smtp os.World) → GetValid s.buf.rep.gend s.buf.get → line_of s ≡ unread s.buf.get
  line_of-unread s v =
      let k = available s.buf.get in
      let e : k ≡ length (unread s.buf.get) = length-unread s.buf.rep.gend s.buf.get v in
      (unread-advance s.buf.rep.gend k s.buf.get v (omega (arith, e))).0
      ∙ take_all k (unread s.buf.get) (omega (arith, e))

  -- `get_response` on a valid get area with one to four unread characters uses up any number of
  -- rounds without reading more, printing anything or changing its state.
  pub get_response-hangs :
      (fuel : ℕ) (s : Smtp os.World)
      → GetValid s.buf.rep.gend s.buf.get
      → 0 < available s.buf.get
      → available s.buf.get < 5
      → get_response os fuel s ≡ (running, s)
  unfolding get_response
  get_response-hangs zero s v h l = refl
  get_response-hangs (suc fuel) s v h l =
      let (c, e) = underflow_ready os s.buf h in
      let short : ltb (length (line_of s)) 5 ≡ true =
        lt→ltb (length (line_of s)) 5 (
          omega
            (arith, ap length (line_of-unread s v), length-unread s.buf.rep.gend s.buf.get v)) in
      rw (e, short) (get_response-hangs fuel s v h l)

pub find_crlf_lem :
    (i : ℕ) (xs rest : List ℕ) → NoCrlf xs → find_crlf i (ended xs ++ rest) ≡ some (i + length xs)
unfolding find_crlf
find_crlf_lem i [] rest n = ap some (omega arith)
find_crlf_lem i (a ∷ []) rest n = elim (Bool-cases (a == 13)) [
  | inl b ↦ rw b (ap some (omega arith))
  | inr b ↦ rw b (ap some (omega arith))
]
find_crlf_lem i (a ∷ b ∷ xs) rest n =
    rw n.0 (find_crlf_lem (suc i) (b ∷ xs) rest n.1 ∙ ap some (omega arith))

-- The lines of a reply: all but the last have a '-' behind the code, and the last has not.
abbrev pub IsLine : Bool → List ℕ → Type 0
IsLine more xs = NoCrlf xs × (2 < length xs) × ((get_or (ended xs) 3 0 == b'-') ≡ more)

abbrev pub AreLines : List (List ℕ) → Type 0
AreLines [] = Unit {0}
AreLines (xs ∷ ls) = IsLine true xs × AreLines ls

module _ (os : Os) where
  -- The client has sent `xs` to its output, and has `rest` left of the buffer.
  pub record Consumed (xs rest : List ℕ) (s t : Smtp os.World) : Type 0 where
    pub valid : GetValid t.buf.rep.gend t.buf.get
    pub left : unread t.buf.get ≡ rest
    pub output : t.output ≡ append_to xs s.output
    pub world : t.buf.world ≡ s.buf.world
    pub put : t.buf.put ≡ s.buf.put

  -- What `reply_line` returns, by what it has found.
  abbrev line_result : Smtp os.World → Bool → Option ℕ → Result Bool × Smtp os.World
  line_result s b o = (ok b, elim o [ none ↦ s | some i ↦ write_line i (line_of s) s ])

  reply_line_lem :
      (more : Bool) (xs rest : List ℕ) (s : Smtp os.World)
      → GetValid s.buf.rep.gend s.buf.get
      → unread s.buf.get ≡ ended xs ++ rest
      → IsLine more xs
      → (t : Smtp os.World) × (reply_line os s ≡ (ok more, t)) × Consumed (ended xs) rest s t
  unfolding reply_line write_line gbump
  reply_line_lem more xs rest s v e (n, l, d) =
      let i : ℕ = 2 + length xs in
      let le : i ≤ length (unread s.buf.get) =
        omega (arith, ap length e, length-append (ended xs) rest, length-ended xs) in
      let line : line_of s ≡ ended xs ++ rest = line_of-unread os s v ∙ e in
      let dash : (get_or (ended xs ++ rest) 3 0 == b'-') ≡ more =
        ap (λ c. c == b'-') (get_or-append 3 (ended xs) rest (omega (arith, length-ended xs)))
        ∙ d in
      let (_, left, valid, _) = unread-advance s.buf.rep.gend i s.buf.get v le in
      (
        write_line i (line_of s) s,
        ap₂ (λ b o. line_result s b o) (ap (λ zs. get_or zs 3 0 == b'-') line ∙ dash)
            (ap (find_crlf 2) line ∙ find_crlf_lem 2 xs rest n),
        record {
          valid = valid;
          left = left ∙ ap (drop i) e ∙ drop-ended xs rest;
          output =
              ap (λ zs. append_to (take i zs) s.output) line
              ∙ ap (λ zs. append_to zs s.output) (take-ended xs rest);
          world = refl;
          put = refl;
        },
      )

  Consumed-trans :
      {xs ys r₁ r₂ : List ℕ} {s t u : Smtp os.World}
      → Consumed xs r₁ s t
      → Consumed ys r₂ t u
      → Consumed (xs ++ ys) r₂ s u
  Consumed-trans {xs} {ys} {s = s} p q = record {
    valid = q.valid;
    left = q.left;
    output = q.output ∙ ap (append_to ys) p.output ∙ append_to-append xs ys s.output;
    world = q.world ∙ p.world;
    put = q.put ∙ p.put;
  }

  split :
      (more : Bool) (fuel : ℕ) (t : Smtp os.World)
      → (if more then get_response os fuel else (λ u. (ok tt, u))) t
        ≡ (if more then get_response os fuel t else (ok tt, t))
  split true fuel t = refl
  split false fuel t = refl

  -- One round of the loop, on a buffer that has a whole line.
  response_round :
      (more : Bool) (fuel : ℕ) (xs rest : List ℕ) (s : Smtp os.World)
      → GetValid s.buf.rep.gend s.buf.get
      → unread s.buf.get ≡ ended xs ++ rest
      → IsLine more xs
      → (t : Smtp os.World) × (get_response os (suc fuel) s
          ≡ (if more then get_response os fuel t else (ok tt, t)))
        × Consumed (ended xs) rest s t
  unfolding get_response
  response_round more fuel xs rest s v e line =
      let size : length (unread s.buf.get) ≡ length xs + 2 + length rest =
        omega (arith, ap length e, length-append (ended xs) rest, length-ended xs) in
      let count = length-unread s.buf.rep.gend s.buf.get v in
      let (c, ready) = underflow_ready os s.buf (omega (arith, count, size, line.1)) in
      let long : ltb (length (line_of s)) 5 ≡ false =
        ge→ltb (length (line_of s)) 5
          (omega (arith, ap length (line_of-unread os s v), size, line.1)) in
      let (t, r, k) = reply_line_lem more xs rest s v e line in
      (t, rw (ready, long, r) (split more fuel t), k)

  -- `get_response` on a get area that holds a whole reply, lines of more than two characters
  -- that end in <CRLF>, all but the last with a `-` as fourth character, returns after having
  -- sent exactly the reply to the output, and leaves what follows it unread. More rounds than
  -- the reply has lines before the last are enough fuel.
  pub get_response-reads :
      (fuel : ℕ) (ls : List (List ℕ)) (last rest : List ℕ) (s : Smtp os.World)
      → GetValid s.buf.rep.gend s.buf.get
      → AreLines ls
      → IsLine false last
      → unread s.buf.get ≡ joined ls last ++ rest
      → length ls < fuel
      → (t : Smtp os.World) × (get_response os fuel s ≡ (ok tt, t))
        × Consumed (joined ls last) rest s t
  get_response-reads zero ls last rest s v als il e h = absurd (omega arith)
  get_response-reads (suc fuel) [] last rest s v als il e h =
      response_round false fuel last rest s v e il
  get_response-reads (suc fuel) (xs ∷ ls) last rest s v als il e h =
      let (t, r, k) =
        response_round true fuel xs (joined ls last ++ rest) s v
          (e ∙ append_assoc (ended xs) (joined ls last) rest) als.0 in
      let (u, r', k') =
        get_response-reads fuel ls last rest t k.valid als.1 il k.left (omega arith) in
      (u, r ∙ r', Consumed-trans k k')
