-- ===== src/Ftp/Reply.antt =====
-- `get_response` of the FTP client (socket++/ftp.cpp) on a whole reply of RFC 959: one line that begins
-- with the code and a blank, or a line that begins with the code and another character, more lines, and
-- at the end a line that begins with the code and a blank.
use cpr.Common.{
  ℕ, zero, suc, ◌+◌, ◌<◌, ◌≤◌, ◌≡◌, refl, ap, ◌∙◌, List, [], ◌∷◌, ◌++◌, arith, true, false, ◌&&◌,
  ◌==◌, Bool-cases, inl, inr, take, drop, length, if◌then◌else◌, length-append, take_all,
  take-append_left, append_to,
}
use cpr.Os.{Os}
use cpr.Sockbuf.Buffer.{gbump, available}
use cpr.Sockbuf.Input.Area.{GetValid, unread, length-unread, unread-advance}
use cpr.Lines.{NoCrlf, ended, joined, length-ended, take-ended, drop-ended, append_to-append}
use cpr.Ftp.{Ftp, at_gptr, write_line, line_size, skip_crlf, same_prefix}

skip_crlf_lem :
    (i : ℕ) (xs rest : List ℕ) → NoCrlf xs → skip_crlf i (ended xs ++ rest) ≡ i + length xs
unfolding skip_crlf
skip_crlf_lem i [] rest n = omega arith
skip_crlf_lem i (a ∷ []) rest n = elim (Bool-cases (a == 13)) [
  | inl b ↦ rw b (omega arith)
  | inr b ↦ rw b (omega arith)
]
skip_crlf_lem i (a ∷ b ∷ xs) rest n = rw n.0 (skip_crlf_lem (suc i) (b ∷ xs) rest n.1 ∙ omega arith)

pub same_prefix-take : (n : ℕ) (xs ys : List ℕ) → same_prefix n (take n xs) ys ≡ same_prefix n xs ys
same_prefix-take zero xs ys = refl
same_prefix-take (suc n) [] ys = refl
same_prefix-take (suc n) (x ∷ xs) [] = refl
same_prefix-take (suc n) (x ∷ xs) (y ∷ ys) =
    ap (λ b. (x == y) && (if x == 0 then true else b)) (same_prefix-take n xs ys)

pub same_prefix-append :
    (n : ℕ) (xs ys zs : List ℕ) → n ≤ length ys → same_prefix n xs (ys ++ zs) ≡ same_prefix n xs ys
same_prefix-append zero xs ys zs h = refl
same_prefix-append (suc n) xs [] zs h = absurd (omega arith)
same_prefix-append (suc n) [] (y ∷ ys) zs h = refl
same_prefix-append (suc n) (x ∷ xs) (y ∷ ys) zs h =
    ap (λ b. (x == y) && (if x == 0 then true else b)) (same_prefix-append n xs ys zs (omega arith))

-- A code: three characters that are not NUL.
pub record Code : Type 0 where
  pub c0 : ℕ
  pub c1 : ℕ
  pub c2 : ℕ
  pub not_nul : ((c0 == 0) ≡ false) × ((c1 == 0) ≡ false) × ((c2 == 0) ≡ false)

-- A line that begins with the code.
abbrev pub coded : Code → List ℕ → List ℕ
coded c xs = c.c0 ∷ c.c1 ∷ c.c2 ∷ xs

-- What `replycode` is compared as.
abbrev pub final : Code → List ℕ
final c = coded c (32 ∷ [])

pub data Reply : Type 0 where
  one_line : List ℕ → Reply
  more_lines : ℕ → List ℕ → List (List ℕ) → List ℕ → Reply

-- The lines between the first and the last: of at least two characters, and not beginning like the
-- last.
abbrev pub AreBetween : Code → List (List ℕ) → Type 0
AreBetween c [] = Unit {0}
AreBetween c (xs ∷ ls) =
    (NoCrlf xs × (1 < length xs) × (same_prefix 4 (ended xs) (final c) ≡ false)) × AreBetween c ls

abbrev pub IsReply : Code → Reply → Type 0
IsReply c (one_line text) = NoCrlf (coded c (32 ∷ text))
IsReply c (more_lines d text ls last) =
    ((d == 32) ≡ false)
    × NoCrlf (coded c (d ∷ text))
    × AreBetween c ls
    × NoCrlf (coded c (32 ∷ last))

abbrev pub reply_text : Code → Reply → List ℕ
reply_text c (one_line text) = ended (coded c (32 ∷ text))
reply_text c (more_lines d text ls last) =
    ended (coded c (d ∷ text)) ++ joined ls (coded c (32 ∷ last))

abbrev pub lines_before : Reply → ℕ
lines_before (one_line text) = 0
lines_before (more_lines d text ls last) = suc (length ls)

module _ (os : Os) where
  -- The client has sent `xs` to its output, and has `rest` left of the buffer.
  pub record Consumed (xs rest : List ℕ) (s t : Ftp os.World) : Type 0 where
    pub valid : GetValid t.buf.rep.gend t.buf.get
    pub left : unread t.buf.get ≡ rest
    pub output : t.output ≡ append_to xs s.output
    pub world : t.buf.world ≡ s.buf.world
    pub put : t.buf.put ≡ s.buf.put

  pub Consumed-trans :
      {xs ys r₁ r₂ : List ℕ} {s t u : Ftp os.World}
      → Consumed xs r₁ s t
      → Consumed ys r₂ t u
      → Consumed (xs ++ ys) r₂ s u
  Consumed-trans {xs} {ys} {s = s} p q = record {
    valid = q.valid;
    left = q.left;
    output = q.output ∙ ap (append_to ys) p.output ∙ append_to-append xs ys s.output;
    world = q.world ∙ p.world;
    put = q.put ∙ p.put;
  }

  at_gptr-unread :
      (k : ℕ) (s : Ftp os.World)
      → GetValid s.buf.rep.gend s.buf.get
      → k ≤ length (unread s.buf.get)
      → at_gptr k s ≡ take k (unread s.buf.get)
  at_gptr-unread k s v h = (unread-advance s.buf.rep.gend k s.buf.get v h).0

  line_size_lem :
      (xs rest : List ℕ) (s : Ftp os.World)
      → GetValid s.buf.rep.gend s.buf.get
      → unread s.buf.get ≡ ended xs ++ rest
      → NoCrlf xs
      → line_size s ≡ 2 + length xs
  unfolding line_size
  line_size_lem xs rest s v e n =
      let k = available s.buf.get in
      let size : k ≡ length (unread s.buf.get) = length-unread s.buf.rep.gend s.buf.get v in
      ap (skip_crlf 2) (
        at_gptr-unread k s v (omega (arith, size))
        ∙ take_all k (unread s.buf.get) (omega (arith, size))
        ∙ e)
      ∙ skip_crlf_lem 2 xs rest n

  -- The line is sent and taken.
  pub write_line-Consumed :
      (xs rest : List ℕ) (s : Ftp os.World)
      → GetValid s.buf.rep.gend s.buf.get
      → unread s.buf.get ≡ ended xs ++ rest
      → NoCrlf xs
      → Consumed (ended xs) rest s (write_line (line_size s) s)
  unfolding write_line gbump
  write_line-Consumed xs rest s v e n =
      let i : ℕ = 2 + length xs in
      let fits : i ≤ length (unread s.buf.get) =
        omega (arith, ap length e, length-append (ended xs) rest, length-ended xs) in
      let (c, left, valid, _) = unread-advance s.buf.rep.gend i s.buf.get v fits in
      rw (line_size_lem xs rest s v e n) (record {
        valid = valid;
        left = left ∙ ap (drop i) e ∙ drop-ended xs rest;
        output = ap (λ zs. append_to zs s.output) (c ∙ ap (take i) e ∙ take-ended xs rest);
        world = refl;
        put = refl;
      })

  -- The four characters at the start of a line.
  pub at_gptr-line :
      (xs rest : List ℕ) (s : Ftp os.World)
      → GetValid s.buf.rep.gend s.buf.get
      → unread s.buf.get ≡ ended xs ++ rest
      → 1 < length xs
      → at_gptr 4 s ≡ take 4 (ended xs)
  at_gptr-line xs rest s v e l =
      at_gptr-unread 4 s v
        (omega (arith, ap length e, length-append (ended xs) rest, length-ended xs))
      ∙ ap (take 4) e
      ∙ take-append_left 4 (ended xs) rest (omega (arith, length-ended xs))
