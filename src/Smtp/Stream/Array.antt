-- ===== src/Smtp/Stream/Array.antt =====
-- The array of characters that `getline` fills (socket++/smtp.cpp), which is read up to its NUL.
use cpr.Common.{
  ℕ, zero, suc, ◌<◌, ◌≡◌, refl, ap, List, [], ◌∷◌, ◌++◌, false, ◌==◌, get_or, set, memcpy, arith,
}
use cpr.Smtp.Stream.{c_str}

-- Neither a newline nor a NUL is in the text.
abbrev pub Plain : List ℕ → Type 0
Plain [] = Unit {0}
Plain (c ∷ cs) = (0 < c) × ((c == 10) ≡ false) × Plain cs

pub c_str-memcpy : (mem xs : List ℕ) → Plain xs → c_str (memcpy mem 0 (xs ++ 0 ∷ [])) ≡ xs
c_str-memcpy [] [] p = refl
c_str-memcpy (m ∷ mem) [] p = refl
c_str-memcpy mem (zero ∷ xs) (h, n, p) = absurd (omega arith)
c_str-memcpy [] (suc x ∷ xs) (h, n, p) = ap (◌∷◌ (suc x)) (c_str_whole xs p)
  where
    c_str_whole : (ys : List ℕ) → Plain ys → c_str (ys ++ 0 ∷ []) ≡ ys
    c_str_whole [] q = refl
    c_str_whole (zero ∷ ys) (l, k, q) = absurd (omega arith)
    c_str_whole (suc y ∷ ys) (l, k, q) = ap (◌∷◌ (suc y)) (c_str_whole ys q)
c_str-memcpy (m ∷ mem) (suc x ∷ xs) (h, n, p) = ap (◌∷◌ (suc x)) (c_str-memcpy mem xs p)

get_or-nul : (xs : List ℕ) (i : ℕ) → get_or (xs ++ 0 ∷ []) i 0 ≡ get_or xs i 0
get_or-nul [] zero = refl
get_or-nul [] (suc i) = refl
get_or-nul (x ∷ xs) zero = refl
get_or-nul (x ∷ xs) (suc i) = get_or-nul xs i

-- A cell that held 0 holds what the string has there.
get_or-memcpy :
    (mem xs : List ℕ) (i : ℕ)
    → get_or mem i 0 ≡ 0
    → get_or (memcpy mem 0 (xs ++ 0 ∷ [])) i 0 ≡ get_or xs i 0
get_or-memcpy [] [] i h = get_or-nul [] i
get_or-memcpy [] (x ∷ xs) i h = get_or-nul (x ∷ xs) i
get_or-memcpy (m ∷ mem) [] zero h = refl
get_or-memcpy (m ∷ mem) [] (suc i) h = h
get_or-memcpy (m ∷ mem) (x ∷ xs) zero h = refl
get_or-memcpy (m ∷ mem) (x ∷ xs) (suc i) h = get_or-memcpy mem xs i h

get_or-set : (xs : List ℕ) (i v : ℕ) → get_or (set xs i v) i v ≡ v
get_or-set [] i v = refl
get_or-set (x ∷ xs) zero v = refl
get_or-set (x ∷ xs) (suc i) v = get_or-set xs i v

-- `buf [3]` behind `getline`, which it was 0 before.
pub fourth : (buf xs : List ℕ) → get_or (memcpy (set buf 3 0) 0 (xs ++ 0 ∷ [])) 3 0 ≡ get_or xs 3 0
fourth buf xs = get_or-memcpy (set buf 3 0) xs 3 (get_or-set buf 3 0)
