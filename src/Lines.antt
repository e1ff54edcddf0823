-- ===== src/Lines.antt =====
-- The lines of replies (socket++/smtp.cpp, socket++/ftp.cpp), which end in <CRLF>.
use cpr.Common.{
  ℕ, zero, suc, ◌+◌, ◌<◌, ◌≡◌, refl, ap, ◌∙◌, List, [], ◌∷◌, ◌++◌, append_assoc, arith, false, ◌&&◌,
  ◌==◌, Option, none, some, take, drop, get_or, length, length-append, take-append_left, take_all,
  drop-append_left, drop_all, append_to,
}

-- No <CR> of the text is followed by <LF>.
abbrev pub NoCrlf : List ℕ → Type 0
NoCrlf [] = Unit {0}
NoCrlf (a ∷ []) = Unit {0}
NoCrlf (a ∷ b ∷ xs) = ((a == 13) && (b == 10) ≡ false) × NoCrlf (b ∷ xs)

abbrev pub ended : List ℕ → List ℕ
ended xs = xs ++ 13 ∷ 10 ∷ []

abbrev pub joined : List (List ℕ) → List ℕ → List ℕ
joined [] last = ended last
joined (xs ∷ ls) last = ended xs ++ joined ls last

pub length-ended : (xs : List ℕ) → length (ended xs) ≡ length xs + 2
length-ended xs = length-append xs (13 ∷ 10 ∷ [])

pub get_or-append : (i : ℕ) (xs ys : List ℕ) → i < length xs → get_or (xs ++ ys) i 0 ≡ get_or xs i 0
get_or-append i [] ys h = absurd (omega arith)
get_or-append zero (x ∷ xs) ys h = refl
get_or-append (suc i) (x ∷ xs) ys h = get_or-append i xs ys (omega arith)

-- A line in front of the rest of the buffer.
pub take-ended : (xs rest : List ℕ) → take (2 + length xs) (ended xs ++ rest) ≡ ended xs
take-ended xs rest =
    take-append_left (2 + length xs) (ended xs) rest (omega (arith, length-ended xs))
    ∙ take_all (2 + length xs) (ended xs) (omega (arith, length-ended xs))

pub drop-ended : (xs rest : List ℕ) → drop (2 + length xs) (ended xs ++ rest) ≡ rest
drop-ended xs rest =
    drop-append_left (2 + length xs) (ended xs) rest (omega (arith, length-ended xs))
    ∙ ap (λ zs. zs ++ rest) (drop_all (2 + length xs) (ended xs) (omega (arith, length-ended xs)))

pub append_to-append :
    (xs ys : List ℕ) (o : Option (List ℕ)) → append_to ys (append_to xs o) ≡ append_to (xs ++ ys) o
append_to-append xs ys none = refl
append_to-append xs ys (some zs) = ap some (append_assoc zs xs ys)
