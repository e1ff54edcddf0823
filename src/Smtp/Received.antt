-- ===== src/Smtp/Received.antt =====
-- The text as a receiver reads it off the wire (RFC 821, 4.5.2, which smtp.h names): against it
-- `escape` is a faithful encoding, and one that is cut into several calls of `send_buf` is not.
use cpr.Common.{
  ℕ, ◌≡◌, refl, sym, ap, ◌∙◌, List, [], ◌∷◌, ◌++◌, append_assoc, arith, true, false, ◌==◌,
  if◌then◌else◌, Option, some, none,
}
use cpr.Smtp.Stuffing.{escape, ends_line, escape-append}

-- At the start of a line, behind its first dot, behind that and CR, within a line, and there behind
-- a CR that is not yet read as a character.
pub data Reader : Type 0 where
  at_start at_dot at_dot_cr within at_cr : Reader

abbrev pub prepend : ℕ → Option (List ℕ × List ℕ) → Option (List ℕ × List ℕ)
prepend c none = none
prepend c (some (xs, rest)) = some (c ∷ xs, rest)

-- The text up to the line that is a single dot, and what follows that line.
unfoldable pub receive : Reader → List ℕ → Option (List ℕ × List ℕ)
receive r [] = none
receive at_start (c ∷ cs) =
    let dot = receive at_dot cs in
    let cr = receive at_cr cs in
    let more = prepend c (receive within cs) in
    if c == b'.' then dot else if c == 13 then cr else more
receive at_dot (c ∷ cs) =
    let cr = receive at_dot_cr cs in
    let more = prepend c (receive within cs) in if c == 13 then cr else more
receive at_dot_cr (c ∷ cs) =
    let cr = prepend 13 (receive at_cr cs) in
    let more = prepend 13 (prepend c (receive within cs)) in
    if c == 10 then some ([], cs) else if c == 13 then cr else more
receive within (c ∷ cs) =
    let cr = receive at_cr cs in
    let more = prepend c (receive within cs) in if c == 13 then cr else more
receive at_cr (c ∷ cs) =
    let line = prepend 10 (receive at_start cs) in
    let cr = prepend 13 (receive at_cr cs) in
    let more = prepend 13 (prepend c (receive within cs)) in
    if c == 10 then line else if c == 13 then cr else more

-- `"\r\n.\r\n"`
abbrev pub terminator : List ℕ
terminator = 13 ∷ 10 ∷ b'.' ∷ 13 ∷ 10 ∷ []

mutual
  unfolding receive escape

  receive_start :
      (cs rest : List ℕ)
      → receive at_start (escape true cs ++ (terminator ++ rest)) ≡ some (cs ++ 10 ∷ [], rest)
  receive_start [] rest = refl
  receive_start (c ∷ cs) rest =
      ground (arith, receive_start cs rest, receive_within cs rest, receive_cr cs rest)

  receive_within :
      (cs rest : List ℕ)
      → receive within (escape false cs ++ (terminator ++ rest)) ≡ some (cs ++ 10 ∷ [], rest)
  receive_within [] rest = refl
  receive_within (c ∷ cs) rest =
      ground (arith, receive_start cs rest, receive_within cs rest, receive_cr cs rest)

  receive_cr :
      (cs rest : List ℕ)
      → receive at_cr (escape false cs ++ (terminator ++ rest)) ≡ some (13 ∷ cs ++ 10 ∷ [], rest)
  receive_cr [] rest = refl
  receive_cr (c ∷ cs) rest =
      ground (arith, receive_start cs rest, receive_within cs rest, receive_cr cs rest)

-- The receiver recovers every text, with the newline that ends the last line, and stops exactly
-- behind the terminator, whatever dots, newlines and carriage returns the text has.
pub receive-escape :
    (text rest : List ℕ)
    → receive at_start (escape true text ++ (terminator ++ rest)) ≡ some (text ++ 10 ∷ [], rest)
receive-escape text rest = receive_start text rest

-- Two texts that are escaped each by itself, where the first ends within a line and the second
-- begins with a dot: the receiver finds one dot more.
pub receive-escape_twice :
    (xs ys rest : List ℕ)
    → ends_line true xs ≡ false
    → receive at_start (escape true xs ++ (escape true (b'.' ∷ ys) ++ (terminator ++ rest)))
      ≡ some (xs ++ b'.' ∷ b'.' ∷ ys ++ 10 ∷ [], rest)
unfolding escape
receive-escape_twice xs ys rest e =
    let joined : escape true (xs ++ b'.' ∷ b'.' ∷ ys) ≡ escape true xs ++ escape true (b'.' ∷ ys) =
      escape-append true xs (b'.' ∷ b'.' ∷ ys)
      ∙ ap (λ b. escape true xs ++ escape b (b'.' ∷ b'.' ∷ ys)) e in
    ap (receive at_start)
      (sym (append_assoc (escape true xs) (escape true (b'.' ∷ ys)) (terminator ++ rest)))
    ∙ ap (λ zs. receive at_start (zs ++ (terminator ++ rest))) (sym joined)
    ∙ receive-escape (xs ++ b'.' ∷ b'.' ∷ ys) rest
