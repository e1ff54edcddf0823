-- ===== src/Smtp/Stream/Printed.antt =====
-- `operator <<` on an `smtp` (socket++/smtp.cpp), which prints the lines of a reply.
use cpr.Common.{
  ℕ, zero, suc, ◌+◌, ◌<◌, ◌≡◌, refl, sym, ap, ◌∙◌, subst, List, [], ◌∷◌, ◌++◌, append_assoc, Bool,
  true, false, ◌==◌, arith, Result, ok, thrown, running, length, length-append, get_or, set, follow,
  memcpy, not, ◌||◌, ◌>>=◌, pure, if◌then◌else◌,
}
use cpr.Os.{Os}
use cpr.Os.Laws.{Input}
use cpr.Sockbuf.State.{Sock}
use cpr.Sockbuf.Input.Underflow.{IsReader}
use cpr.Smtp.Stream.{SmtpStream, getline, get_line_response, print_response, printed, good}
use cpr.Smtp.Stream.Array.{c_str-memcpy, fourth}
use cpr.Smtp.Stream.Getline.{line_text, Cut}
use cpr.Smtp.Stream.Response.{
  IsLine, unread_of, Remains, Remains-trans, Unless, Got, get_line_response-Got,
}

-- The lines of a reply: all but the last have a `-` as fourth character.
abbrev pub reply_text : List (List ℕ) → List ℕ → List ℕ
reply_text [] last = line_text last
reply_text (l ∷ ls) last = line_text l ++ reply_text ls last

abbrev pub IsReply : List (List ℕ) → List ℕ → Type 0
IsReply [] last = IsLine false last
IsReply (l ∷ ls) last = IsLine true l × IsReply ls last

module _ (os : Os) (fd : ℕ) (inp : Input os fd) where
  -- A stream that is not good prints an empty line and reads nothing.
  print_response_failed :
      (fuel : ℕ) (buf : List ℕ) (s : SmtpStream os.World)
      → good s ≡ false
      → print_response os (suc fuel) buf s ≡ (ok (10 ∷ []), record s { failbit = true })
  unfolding print_response get_line_response getline printed
  print_response_failed fuel buf s g =
      let stops : (get_or (memcpy (set buf 3 0) 0 (0 ∷ [])) 3 0 == b'-') ≡ false =
        ap (λ c. c == b'-') (fourth buf []) in
      rw (g, stops)
        (ap (λ xs. (ok (xs ++ 10 ∷ []), record s { failbit = true }))
          (c_str-memcpy (set buf 3 0) [] tt))

  bad_not_good : (e f : Bool) → not (e || f || true) ≡ false
  bad_not_good true f = refl
  bad_not_good false true = refl
  bad_not_good false false = refl

  abbrev pub Prints :
      List ℕ → List ℕ → SmtpStream os.World → Result (List ℕ) × SmtpStream os.World → Type 0
  Prints text rest s (ok out, t) =
      Unless os fd inp t.badbit (out ≡ text) text rest t × Remains os fd inp s t
  Prints text rest s (thrown e, t) = ⊥
  Prints text rest s (running, t) = ⊥

  -- The loop behind `get_response`.
  abbrev after_response :
      ℕ → Result (List ℕ × Bool) × SmtpStream os.World → Result (List ℕ) × SmtpStream os.World
  after_response fuel = follow (λ (p : List ℕ × Bool).
      if p.1
      then (do more ← print_response os (suc fuel) p.0; pure (printed p.0 ++ more))
      else pure (printed p.0))

  -- What is behind a line of which the stream has been cut off.
  stopped-Prints :
      (fuel : ℕ) (cont : Bool) (text rest line : List ℕ) (s t : SmtpStream os.World)
      → t.badbit ≡ true
      → Cut os fd inp text rest t.smtpbuf.buf
      → Remains os fd inp s t
      → Prints text rest s (after_response fuel (ok (line, cont), t))
  stopped-Prints fuel false text rest line s t b cut r =
      (subst (λ x. Unless os fd inp x (printed line ≡ text) text rest t) (sym b) cut, r)
  stopped-Prints fuel true text rest line s t b cut r =
      let off : good t ≡ false =
        ap (λ x. not (t.eofbit || t.failbit || x)) b ∙ bad_not_good t.eofbit t.failbit in
      rw (print_response_failed fuel line t off) (
        subst
            (λ x.
              Unless os fd inp x (printed line ++ 10 ∷ [] ≡ text) text rest
                (record t { failbit = true }))
            (sym b) cut,
        record { reader = r.reader; same = r.same; output = r.output },
      )

  prepend-Cut :
      (xs text rest : List ℕ) (t : Sock os.World)
      → Cut os fd inp text rest t
      → Cut os fd inp (xs ++ text) rest t
  prepend-Cut xs text rest t (front, zs, e, l, d) =
      (xs ++ front, zs, ap (λ ys. xs ++ ys) e ∙ sym (append_assoc xs front zs), l, d)

  append-Cut :
      (xs text rest : List ℕ) (t : Sock os.World)
      → Cut os fd inp xs (text ++ rest) t
      → Cut os fd inp (xs ++ text) rest t
  append-Cut xs text rest t (front, zs, e, l, d) = (
    front,
    zs ++ text,
    ap (λ ys. ys ++ text) e ∙ append_assoc front zs text,
    omega (arith, length-append zs text),
    d ∙ sym (append_assoc zs text rest),
  )

  -- The rest of a reply behind a line that was printed.
  behind_line-Prints :
      (l text rest : List ℕ) (line : List ℕ) (s t : SmtpStream os.World)
      (r : Result (List ℕ) × SmtpStream os.World)
      → printed line ≡ line_text l
      → Remains os fd inp s t
      → Prints text rest t r
      → Prints (line_text l ++ text) rest s (follow (λ more u. (ok (printed line ++ more), u)) r)
  behind_line-Prints l text rest line s t (ok out, u) e q (h, r) =
      (by_badbit u.badbit h, Remains-trans os fd inp q r)
    where
      by_badbit :
          (b : Bool)
          → Unless os fd inp b (out ≡ text) text rest u
          → Unless os fd inp b
              (printed line ++ out ≡ line_text l ++ text)
              (line_text l ++ text)
              rest
              u
      by_badbit false (o, g, d) = (ap (λ xs. xs ++ out) e ∙ ap (λ xs. line_text l ++ xs) o, g, d)
      by_badbit true cut = prepend-Cut (line_text l) text rest u.smtpbuf.buf cut
  behind_line-Prints l text rest line s t (thrown x, u) e q p = p
  behind_line-Prints l text rest line s t (running, u) e q p = p

  -- What follows the last line.
  last-Prints :
      (fuel : ℕ) (last rest : List ℕ) (s : SmtpStream os.World)
      (r : Result (List ℕ × Bool) × SmtpStream os.World)
      → Got os fd inp false last rest s r
      → Prints (line_text last) rest s (after_response fuel r)
  last-Prints fuel last rest s (ok (line, cont), t) (h, r) = by_badbit t.badbit refl h
    where
      by_badbit :
          (b : Bool)
          → t.badbit ≡ b
          → Unless os fd inp b
              ((printed line ≡ line_text last) × (cont ≡ false))
              (line_text last)
              rest
              t
          → Prints (line_text last) rest s (after_response fuel (ok (line, cont), t))
      by_badbit false e ((p, c), g, d) = rw c (
        subst (λ x. Unless os fd inp x (printed line ≡ line_text last) (line_text last) rest t)
            (sym e) (p, g, d),
        r,
      )
      by_badbit true e cut = stopped-Prints fuel cont (line_text last) rest line s t e cut r
  last-Prints fuel last rest s (thrown e, t) p = p
  last-Prints fuel last rest s (running, t) p = p

  -- What follows another line.
  more-Prints :
      (fuel : ℕ) (l text rest : List ℕ) (s : SmtpStream os.World)
      (r : Result (List ℕ × Bool) × SmtpStream os.World)
      → ((line : List ℕ) (t : SmtpStream os.World)
          → good t ≡ true
          → IsReader os fd inp t.smtpbuf.buf
          → unread_of os fd inp t ≡ text ++ rest
          → Prints text rest t (print_response os (suc fuel) line t))
      → Got os fd inp true l (text ++ rest) s r
      → Prints (line_text l ++ text) rest s (after_response fuel r)
  more-Prints fuel l text rest s (ok (line, cont), t) ih (h, r) = by_badbit t.badbit refl h
    where
      by_badbit :
          (b : Bool)
          → t.badbit ≡ b
          → Unless os fd inp b
              ((printed line ≡ line_text l) × (cont ≡ true))
              (line_text l)
              (text ++ rest)
              t
          → Prints (line_text l ++ text) rest s (after_response fuel (ok (line, cont), t))
      by_badbit false e ((p, c), g, d) =
          rw c (behind_line-Prints l text rest line s t _ p r (ih line t g r.reader d))
      by_badbit true e cut =
          stopped-Prints fuel cont (line_text l ++ text) rest line s t e
            (append-Cut (line_text l) text rest t.smtpbuf.buf cut) r
  more-Prints fuel l text rest s (thrown e, t) ih p = p
  more-Prints fuel l text rest s (running, t) ih p = p

  -- `operator <<` on a good `smtp` whose buffer may read and whose input begins with a whole
  -- reply, lines of less than 1024 characters without NUL, all but the last with a `-` as
  -- fourth character, and with more rounds than one and the lines together: it always returns.
  -- However the reply arrives, it prints exactly its lines and takes exactly them from the
  -- input, or `badbit` is set, and then part of the reply is still to be read. The output side
  -- of the buffer and `output` are untouched.
  pub print_response-Prints :
      (fuel : ℕ) (ls : List (List ℕ)) (last rest buf : List ℕ) (s : SmtpStream os.World)
      → IsReply ls last
      → good s ≡ true
      → IsReader os fd inp s.smtpbuf.buf
      → unread_of os fd inp s ≡ reply_text ls last ++ rest
      → length ls + 1 < fuel
      → Prints (reply_text ls last) rest s (print_response os fuel buf s)
  unfolding print_response
  print_response-Prints zero ls last rest buf s p g w e l = absurd (omega arith)
  print_response-Prints (suc zero) ls last rest buf s p g w e l = absurd (omega arith)
  print_response-Prints (suc (suc fuel)) [] last rest buf s p g w e l =
      last-Prints fuel last rest s _ (get_line_response-Got os fd inp false last rest buf s p g w e)
  print_response-Prints (suc (suc fuel)) (x ∷ ls) last rest buf s (p, q) g w e l =
      more-Prints fuel x (reply_text ls last) rest s _
        (λ line t gt wt et.
          print_response-Prints (suc fuel) ls last rest line t q gt wt et (omega arith))
        (get_line_response-Got os fd inp true x (reply_text ls last ++ rest) buf s p g w
          (e ∙ append_assoc (line_text x) (reply_text ls last) rest))
