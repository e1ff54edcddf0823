-- ===== src/Common/Lists.antt =====
-- Lists measured and indexed by native numbers, and memory as a list of cells.
use Prim.Native.Nat.{ℕ, zero, suc, ◌+◌, ◌-◌, ◌≤◌, ◌<◌, min}
use mathlib.Core.Path.{◌≡◌, refl, ap}
use mathlib.Core.List.{List, [], ◌∷◌, ◌++◌}
use native.Mathlib.Nat.{zero-add, suc-add}
use native.Mathlib.Numerals.{unary_clauses}
use native.Mathlib.Omega.{arith}

ruleset sums = (unary_clauses, zero-add, suc-add)

module _ {ℓ} {A : Type ℓ} where
  abbrev pub length : List A → ℕ
  length [] = 0
  length (x ∷ xs) = suc (length xs)

  abbrev pub get_or : List A → ℕ → A → A
  get_or [] i d = d
  get_or (x ∷ xs) zero d = x
  get_or (x ∷ xs) (suc i) d = get_or xs i d

  -- A write out of bounds changes nothing.
  abbrev pub set : List A → ℕ → A → List A
  set [] i v = []
  set (x ∷ xs) zero v = v ∷ xs
  set (x ∷ xs) (suc i) v = x ∷ set xs i v

  abbrev pub take : ℕ → List A → List A
  take zero xs = []
  take (suc n) [] = []
  take (suc n) (x ∷ xs) = x ∷ take n xs

  abbrev pub drop : ℕ → List A → List A
  drop zero xs = xs
  drop (suc n) [] = []
  drop (suc n) (x ∷ xs) = drop n xs

  -- `memcpy` of all of `xs` to the cells from `i` on. One that overruns the block makes it longer.
  abbrev pub memcpy : List A → ℕ → List A → List A
  memcpy mem i [] = mem
  memcpy [] i (x ∷ xs) = x ∷ xs
  memcpy (m ∷ mem) zero (x ∷ xs) = x ∷ memcpy mem zero xs
  memcpy (m ∷ mem) (suc i) (x ∷ xs) = m ∷ memcpy mem i (x ∷ xs)

module _ {ℓ} {A : Type ℓ} where
  pub length-append : (xs ys : List A) → length (xs ++ ys) ≡ length xs + length ys
  length-append [] ys = omega arith
  length-append (x ∷ xs) ys = omega (arith, length-append xs ys)

  pub length-take : (n : ℕ) (xs : List A) → length (take n xs) ≡ min n (length xs)
  length-take zero xs = omega arith
  length-take (suc n) [] = omega arith
  length-take (suc n) (x ∷ xs) = omega (arith, length-take n xs)

  pub length-drop : (n : ℕ) (xs : List A) → length (drop n xs) ≡ length xs - n
  length-drop zero xs = omega arith
  length-drop (suc n) [] = omega arith
  length-drop (suc n) (x ∷ xs) = omega (arith, length-drop n xs)

  pub take-append-drop : (n : ℕ) (xs : List A) → take n xs ++ drop n xs ≡ xs
  take-append-drop zero xs = refl
  take-append-drop (suc n) [] = refl
  take-append-drop (suc n) (x ∷ xs) = ap (◌∷◌ x) (take-append-drop n xs)

  pub take_all : (n : ℕ) (xs : List A) → length xs ≤ n → take n xs ≡ xs
  take_all zero [] h = refl
  take_all zero (x ∷ xs) h = absurd (omega arith)
  take_all (suc n) [] h = refl
  take_all (suc n) (x ∷ xs) h = ap (◌∷◌ x) (take_all n xs (omega arith))

  pub drop_all : (n : ℕ) (xs : List A) → length xs ≤ n → drop n xs ≡ []
  drop_all zero [] h = refl
  drop_all zero (x ∷ xs) h = absurd (omega arith)
  drop_all (suc n) [] h = refl
  drop_all (suc n) (x ∷ xs) h = drop_all n xs (omega arith)

  pub drop-drop : (m n : ℕ) (xs : List A) → drop m (drop n xs) ≡ drop (n + m) xs
  drop-drop m zero xs = ap (λ k. drop k xs) (omega arith)
  drop-drop zero (suc n) [] = simp sums
  drop-drop (suc m) (suc n) [] = simp sums
  drop-drop m (suc n) (x ∷ xs) = simp sums (drop-drop m n xs)

  pub drop-take : (i j : ℕ) (xs : List A) → drop i (take (i + j) xs) ≡ take j (drop i xs)
  drop-take zero j xs = simp sums
  drop-take (suc i) zero [] = simp sums
  drop-take (suc i) (suc j) [] = simp sums
  drop-take (suc i) j (x ∷ xs) = simp sums (drop-take i j xs)

  -- What stands below the written cells stays, and the block keeps its size if the copy fits.
  pub take-memcpy :
      (mem : List A) (i : ℕ) (xs : List A)
      → i ≤ length mem
      → take (i + length xs) (memcpy mem i xs) ≡ take i mem ++ xs
  take-memcpy mem zero [] h = refl
  take-memcpy [] (suc i) [] h = simp sums
  take-memcpy (m ∷ mem) (suc i) [] h =
      simp sums (ap (◌∷◌ m) (simp sums at (take-memcpy mem i [] (omega arith))))
  take-memcpy [] zero (x ∷ xs) h = simp sums (ap (◌∷◌ x) (take_all (length xs) xs (omega arith)))
  take-memcpy [] (suc i) (x ∷ xs) h = absurd (omega arith)
  take-memcpy (m ∷ mem) zero (x ∷ xs) h =
      simp sums (ap (◌∷◌ x) (simp sums at (take-memcpy mem zero xs (omega arith))))
  take-memcpy (m ∷ mem) (suc i) (x ∷ xs) h =
      simp sums (ap (◌∷◌ m) (simp sums at (take-memcpy mem i (x ∷ xs) (omega arith))))

  pub length-memcpy :
      (mem : List A) (i : ℕ) (xs : List A)
      → i + length xs ≤ length mem
      → length (memcpy mem i xs) ≡ length mem
  length-memcpy mem i [] h = refl
  length-memcpy [] i (x ∷ xs) h = absurd (omega arith)
  length-memcpy (m ∷ mem) zero (x ∷ xs) h = ap suc (length-memcpy mem zero xs (omega arith))
  length-memcpy (m ∷ mem) (suc i) (x ∷ xs) h = ap suc (length-memcpy mem i (x ∷ xs) (omega arith))

  pub length-set : (xs : List A) (i : ℕ) (v : A) → length (set xs i v) ≡ length xs
  length-set [] i v = refl
  length-set (x ∷ xs) zero v = refl
  length-set (x ∷ xs) (suc i) v = ap suc (length-set xs i v)

  pub take-set :
      (xs : List A) (i : ℕ) (v : A)
      → i < length xs
      → take (suc i) (set xs i v) ≡ take i xs ++ v ∷ []
  take-set [] i v h = absurd (omega arith)
  take-set (x ∷ xs) zero v h = refl
  take-set (x ∷ xs) (suc i) v h = ap (◌∷◌ x) (take-set xs i v (omega arith))

  pub drop-set : (xs : List A) (i j : ℕ) (v : A) → i < j → drop j (set xs i v) ≡ drop j xs
  drop-set [] i j v h = refl
  drop-set (x ∷ xs) zero zero v h = absurd (omega arith)
  drop-set (x ∷ xs) zero (suc j) v h = refl
  drop-set (x ∷ xs) (suc i) zero v h = absurd (omega arith)
  drop-set (x ∷ xs) (suc i) (suc j) v h = drop-set xs i j v (omega arith)

  pub drop-get_or :
      (xs : List A) (i : ℕ) (d : A) → i < length xs → drop i xs ≡ get_or xs i d ∷ drop (suc i) xs
  drop-get_or [] i d h = absurd (omega arith)
  drop-get_or (x ∷ xs) zero d h = refl
  drop-get_or (x ∷ xs) (suc i) d h = drop-get_or xs i d (omega arith)

  pub take-add : (n k : ℕ) (xs : List A) → take n xs ++ take k (drop n xs) ≡ take (n + k) xs
  take-add zero k xs = simp sums
  take-add (suc n) zero [] = simp sums
  take-add (suc n) (suc k) [] = simp sums
  take-add (suc n) k (x ∷ xs) = simp sums (ap (◌∷◌ x) (take-add n k xs))

  pub take-take : (i j : ℕ) (xs : List A) → i ≤ j → take i (take j xs) ≡ take i xs
  take-take zero j xs h = refl
  take-take (suc i) zero xs h = absurd (omega arith)
  take-take (suc i) (suc j) [] h = refl
  take-take (suc i) (suc j) (x ∷ xs) h = ap (◌∷◌ x) (take-take i j xs (omega arith))

  pub take-append_left : (n : ℕ) (xs ys : List A) → n ≤ length xs → take n (xs ++ ys) ≡ take n xs
  take-append_left zero xs ys h = refl
  take-append_left (suc n) [] ys h = absurd (omega arith)
  take-append_left (suc n) (x ∷ xs) ys h = ap (◌∷◌ x) (take-append_left n xs ys (omega arith))

  pub drop-append_left :
      (n : ℕ) (xs ys : List A) → n ≤ length xs → drop n (xs ++ ys) ≡ drop n xs ++ ys
  drop-append_left zero xs ys h = refl
  drop-append_left (suc n) [] ys h = absurd (omega arith)
  drop-append_left (suc n) (x ∷ xs) ys h = drop-append_left n xs ys (omega arith)

  pub get_or-memcpy_zero :
      (mem : List A) (x : A) (xs : List A) (d : A) → get_or (memcpy mem 0 (x ∷ xs)) 0 d ≡ x
  get_or-memcpy_zero [] x xs d = refl
  get_or-memcpy_zero (m ∷ mem) x xs d = refl

  pub take-append_rest :
      (xs ys : List A) (k : ℕ) → take (length xs + k) (xs ++ ys) ≡ xs ++ take k ys
  take-append_rest [] ys k = ap (λ n. take n ys) (omega arith)
  take-append_rest (x ∷ xs) ys k =
      let e : length (x ∷ xs) + k ≡ suc (length xs + k) = omega arith in
      rw e (ap (◌∷◌ x) (take-append_rest xs ys k))
