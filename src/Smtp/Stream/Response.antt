-- ===== src/Smtp/Stream/Response.antt =====
-- `get_response (buf, len)` of an `smtp` (socket++/smtp.cpp) on a whole line.
use cpr.Common.{
  ℕ, ◌<◌, ◌≡◌, refl, sym, ap, ◌∙◌, subst, List, ◌++◌, Bool, true, false, ◌==◌, arith, Result, ok,
  thrown, running, length, get_or, set, follow,
}
use cpr.Os.{Os}
use cpr.Os.Laws.{Input}
use cpr.Sockbuf.Input.Underflow.{SameOutput, SameOutput-trans, stream, IsReader}
use cpr.Smtp.Stream.{
  SmtpStream, Line, at_end, at_delim, at_full, at_throw, at_running, getline, get_line_response,
  printed, good, after_line,
}
use cpr.Smtp.Stream.Array.{Plain, c_str-memcpy, fourth}
use cpr.Smtp.Stream.Getline.{line_text, Cut, ReadsLine, getline_loop-ReadsLine}

-- A line that fits, and whether it has a `-` as fourth character.
abbrev pub IsLine : Bool → List ℕ → Type 0
IsLine more xs = Plain xs × (length xs < 1024) × ((get_or xs 3 0 == b'-') ≡ more)

module _ (os : Os) (fd : ℕ) (inp : Input os fd) where
  abbrev pub unread_of : SmtpStream os.World → List ℕ
  unread_of s = stream os fd inp s.smtpbuf.buf

  -- The stream may still read, and its output side and `output` are as they were.
  pub record Remains (s t : SmtpStream os.World) : Type 0 where
    pub reader : IsReader os fd inp t.smtpbuf.buf
    pub same : SameOutput s.smtpbuf.buf t.smtpbuf.buf
    pub output : t.smtpbuf.output ≡ s.smtpbuf.output

  pub Remains-trans : {s t u : SmtpStream os.World} → Remains s t → Remains t u → Remains s u
  Remains-trans p q = record {
    reader = q.reader;
    same = SameOutput-trans p.same q.same;
    output = q.output ∙ p.output;
  }

  -- What has become of `text`, by `badbit`: `Q`, or it was cut.
  abbrev pub Unless : Bool → Type 0 → List ℕ → List ℕ → SmtpStream os.World → Type 0
  Unless false Q text rest t = Q × (good t ≡ true) × (unread_of t ≡ rest)
  Unless true Q text rest t = Cut os fd inp text rest t.smtpbuf.buf

  abbrev pub Got :
      Bool
      → List ℕ
      → List ℕ
      → SmtpStream os.World
      → Result (List ℕ × Bool) × SmtpStream os.World
      → Type 0
  Got more xs rest s (ok (buf, cont), t) =
      Unless t.badbit ((printed buf ≡ line_text xs) × (cont ≡ more)) (line_text xs) rest t
      × Remains s t
  Got more xs rest s (thrown e, t) = ⊥
  Got more xs rest s (running, t) = ⊥

  after_line-Got :
      (more : Bool) (xs rest buf : List ℕ) (s : SmtpStream os.World) (l : Line os.World)
      → IsLine more xs
      → ReadsLine os fd inp xs rest s.smtpbuf.buf l
      → Got more xs rest s (
          follow
            (λ line t. (ok (line, get_or line 3 0 == b'-'), t))
            (after_line (set buf 3 0) 1024 s l))
  unfolding printed
  after_line-Got more xs rest buf s (ys, at_delim, t) (p, l, m) (e, d, (w, same)) =
      let plain = subst Plain (sym e) p in
      (
        (
          (
            ap line_text (c_str-memcpy (set buf 3 0) ys plain ∙ e),
            ap (λ c. c == b'-') (fourth buf ys ∙ ap (λ zs. get_or zs 3 0) e) ∙ m,
          ),
          refl,
          d,
        ),
        record { reader = w; same = same; output = refl },
      )
  after_line-Got more xs rest buf s (ys, at_throw, t) (p, l, m) (cut, (w, same)) =
      (cut, record { reader = w; same = same; output = refl })
  after_line-Got more xs rest buf s (ys, at_end, t) h q = absurd q
  after_line-Got more xs rest buf s (ys, at_full, t) h q = absurd q
  after_line-Got more xs rest buf s (ys, at_running, t) h q = absurd q

  pub get_line_response-Got :
      (more : Bool) (xs rest buf : List ℕ) (s : SmtpStream os.World)
      → IsLine more xs
      → good s ≡ true
      → IsReader os fd inp s.smtpbuf.buf
      → unread_of s ≡ line_text xs ++ rest
      → Got more xs rest s (get_line_response os buf 1024 s)
  unfolding get_line_response getline
  get_line_response-Got more xs rest buf s (p, l, m) g w e = rw g (
      after_line-Got more xs rest buf s _ (p, l, m)
        (getline_loop-ReadsLine os fd inp 1023 xs rest s.smtpbuf.buf w e p (omega arith)))
