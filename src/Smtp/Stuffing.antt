-- ===== src/Smtp/Stuffing.antt =====
-- `send_buf` (socket++/smtp.cpp): lines end in <CRLF>, and a line that begins with a dot gets one more.
use cpr.Common.{
  ℕ, ◌%◌, ◌<◌, ◌≡◌, refl, sym, ap, ◌∙◌, subst, List, [], ◌∷◌, ◌++◌, append_assoc, append-nil, arith,
  Bool, true, ◌&&◌, ◌==◌, if◌then◌else◌, Bool-cases, inl, inr, ◌>>◌, pure, Action, ==_iff,
}
use cpr.Os.{Os}
use cpr.Os.Laws.{Output}
use cpr.Sockbuf.State.{Sock}
use cpr.Sockbuf.Buffer.{sputc}
use cpr.Sockbuf.Output.Put.{IsWriter}
use cpr.Sockbuf.Output.Flush.{still}
use cpr.Sockbuf.Output.Append.{Appends, Appends-follow, Appends-none, sputc-Appends}
use cpr.Smtp.{send_chars, send_buf, put_dot, next_char}

abbrev pub IsBytes : List ℕ → Type 0
IsBytes [] = Unit {0}
IsBytes (c ∷ cs) = (c < 256) × IsBytes cs

-- The dot that is put before `c` at the start of a line.
abbrev pub dot_before : Bool → ℕ → List ℕ
dot_before start c = if start && (c == b'.') then b'.' ∷ [] else []

abbrev pub encoded : ℕ → List ℕ
encoded c = if c == 10 then 13 ∷ 10 ∷ [] else c ∷ []

-- The text as it goes over the wire, `start` saying whether it begins a line.
unfoldable pub escape : Bool → List ℕ → List ℕ
escape start [] = []
escape start (c ∷ cs) = dot_before start c ++ (encoded c ++ escape (c == 10) cs)

-- Whether the next character begins a line.
unfoldable pub ends_line : Bool → List ℕ → Bool
ends_line start [] = start
ends_line start (c ∷ cs) = ends_line (c == 10) cs

-- What the loop puts, character by character.
put_by_loop : List ℕ → ℕ → List ℕ
put_by_loop [] after = []
put_by_loop (c ∷ cs) after =
    encoded c ++ (dot_before (c == 10) (next_char cs after) ++ put_by_loop cs after)

put_by_loop-escape :
    (start : Bool) (cs : List ℕ) (after : ℕ)
    → dot_before start (next_char cs after) ++ put_by_loop cs after
      ≡ escape start cs ++ dot_before (ends_line start cs) after
unfolding put_by_loop escape ends_line
put_by_loop-escape start [] after = append-nil (dot_before start after)
put_by_loop-escape start (c ∷ cs) after =
    let rest = dot_before (ends_line (c == 10) cs) after in
    ap (λ xs. dot_before start c ++ (encoded c ++ xs)) (put_by_loop-escape (c == 10) cs after)
    ∙ ap (λ xs. dot_before start c ++ xs)
        (sym (append_assoc (encoded c) (escape (c == 10) cs) rest))
    ∙ sym (append_assoc (dot_before start c) (encoded c ++ escape (c == 10) cs) rest)

pub escape-append :
    (start : Bool) (xs ys : List ℕ)
    → escape start (xs ++ ys) ≡ escape start xs ++ escape (ends_line start xs) ys
unfolding escape ends_line
escape-append start [] ys = refl
escape-append start (c ∷ cs) ys =
    let more = escape (ends_line (c == 10) cs) ys in
    ap (λ xs. dot_before start c ++ (encoded c ++ xs)) (escape-append (c == 10) cs ys)
    ∙ ap (λ xs. dot_before start c ++ xs)
        (sym (append_assoc (encoded c) (escape (c == 10) cs) more))
    ∙ sym (append_assoc (dot_before start c) (encoded c ++ escape (c == 10) cs) more)

module _ (os : Os) (fd : ℕ) (out : Output os fd) (fuel : ℕ) where
  sputc_byte :
      (c : ℕ) (s : Sock os.World)
      → c < 256
      → IsWriter os fd out s
      → s.rep.pend < fuel
      → Appends os fd out (c ∷ []) s (sputc os fuel c s)
  sputc_byte c s b w f =
      let e : c % 256 ≡ c = omega arith in
      subst (λ d. Appends os fd out (d ∷ []) s (sputc os fuel c s)) e
        (sputc-Appends os fd out fuel c s w f)

  put_dot-Appends :
      (c : ℕ) (s : Sock os.World)
      → IsWriter os fd out s
      → s.rep.pend < fuel
      → Appends os fd out (dot_before true c) s (put_dot os fuel c s)
  put_dot-Appends c s w f = elim (Bool-cases (c == b'.')) [
    | inl b ↦ rw b (
        Appends-follow os fd out (b'.' ∷ []) [] s _ _ w (sputc_byte b'.' s (omega arith) w f)
          (λ _ t wt same. Appends-none os fd out tt t wt))
    | inr b ↦ rw b (Appends-none os fd out tt s w)
  ]

  -- One round of the loop.
  unfoldable round : ℕ → ℕ → Action (Sock os.World) (Unit {0})
  round c next =
      if c == 10
      then sputc os fuel 13 >> sputc os fuel c >> put_dot os fuel next
      else sputc os fuel c >> pure tt

  round-Appends :
      (c next : ℕ) (s : Sock os.World)
      → c < 256
      → IsWriter os fd out s
      → s.rep.pend < fuel
      → Appends os fd out (encoded c ++ dot_before (c == 10) next) s (round c next s)
  unfolding round
  round-Appends c next s b w f = elim (Bool-cases (c == 10)) [
    | inl z ↦
        let e : c ≡ 10 = (==_iff c 10).0 z in
        rw z (
          subst
            (λ d.
              Appends os fd out (13 ∷ d ∷ dot_before true next) s
                ((sputc os fuel 13 >> sputc os fuel c >> put_dot os fuel next) s))
            e
            (Appends-follow os fd out (13 ∷ c ∷ []) (dot_before true next) s _ _ w
              (Appends-follow os fd out (13 ∷ []) (c ∷ []) s _ _ w
                (sputc_byte 13 s (omega arith) w f)
                (λ _ t wt same. sputc_byte c t b wt (still f same)))
              (λ _ t wt same. put_dot-Appends next t wt (still f same))))
    | inr z ↦ rw z (
        Appends-follow os fd out (c ∷ []) [] s _ _ w (sputc_byte c s b w f)
          (λ _ t wt same. Appends-none os fd out tt t wt))
  ]

  send_chars-Appends :
      (cs : List ℕ) (after : ℕ) (s : Sock os.World)
      → IsBytes cs
      → IsWriter os fd out s
      → s.rep.pend < fuel
      → Appends os fd out (put_by_loop cs after) s (send_chars os fuel cs after s)
  unfolding send_chars put_by_loop round
  send_chars-Appends [] after s b w f = Appends-none os fd out tt s w
  send_chars-Appends (c ∷ cs) after s b w f =
      let next = next_char cs after in
      subst (λ xs. Appends os fd out xs s (send_chars os fuel (c ∷ cs) after s))
        (append_assoc (encoded c) (dot_before (c == 10) next) (put_by_loop cs after))
        (Appends-follow os fd out (encoded c ++ dot_before (c == 10) next) (put_by_loop cs after) s
          (round c next s) (λ _. send_chars os fuel cs after) w (round-Appends c next s b.0 w f)
          (λ _ t wt same. send_chars-Appends cs after t b.1 wt (still f same)))

  -- `send_buf` on a text of bytes that is not empty, for an object that may write and fuel
  -- above the buffer's size, puts the text as one that begins a line, with <CRLF> for every
  -- newline and one more dot before every line that begins with a dot. Behind a final newline
  -- it puts one more dot if the byte behind the text in memory is a dot. A call that throws has
  -- put a front part of this.
  pub send_buf-Appends :
      (c : ℕ) (cs : List ℕ) (after : ℕ) (s : Sock os.World)
      → IsBytes (c ∷ cs)
      → IsWriter os fd out s
      → s.rep.pend < fuel
      → Appends os fd out
          (escape true (c ∷ cs) ++ dot_before (ends_line true (c ∷ cs)) after)
          s
          (send_buf os fuel (c ∷ cs) after s)
  unfolding send_buf
  send_buf-Appends c cs after s b w f =
      subst (λ xs. Appends os fd out xs s (send_buf os fuel (c ∷ cs) after s))
        (put_by_loop-escape true (c ∷ cs) after)
        (Appends-follow os fd out (dot_before true c) (put_by_loop (c ∷ cs) after) s
          (put_dot os fuel c s) (λ _. send_chars os fuel (c ∷ cs) after) w (put_dot-Appends c s w f)
          (λ _ t wt same. send_chars-Appends (c ∷ cs) after t b wt (still f same)))
