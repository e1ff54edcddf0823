-- ===== src/Sig/Lists.antt =====
-- The lists of handlers (socket++/sig.cpp): finding, appending and erasing, and lists in which no
-- handler stands twice.
use cpr.Common.{
  ℕ, ◌≡◌, refl, subst, List, [], ◌∷◌, ◌++◌, true, false, ◌==◌, Bool-cases, ==_iff, inl, inr, arith,
}
use cpr.Sig.{Sig, update, found, erase}

-- Every handler stands in the list once.
abbrev pub Nodup : List ℕ → Type 0
Nodup [] = Unit {0}
Nodup (x ∷ xs) = (found x xs ≡ false) × Nodup xs

abbrev pub IsWell : {W : Type 0} → Sig W → Type 0
IsWell s = (signo : ℕ) → Nodup (s.smap signo)

found-append :
    (h x : ℕ) (xs : List ℕ) → found x xs ≡ false → (h == x) ≡ false → found x (xs ++ h ∷ []) ≡ false
found-append h x [] f n = ground (arith, n)
found-append h x (y ∷ xs) f n = ground (arith, f, n, found-append h x xs)

pub Nodup-append : (h : ℕ) (xs : List ℕ) → Nodup xs → found h xs ≡ false → Nodup (xs ++ h ∷ [])
Nodup-append h [] n f = (refl, tt)
Nodup-append h (x ∷ xs) n f =
    (found-append h x xs n.0 (ground (arith, f)), Nodup-append h xs n.1 (ground (arith, f)))

found-erase : (h x : ℕ) (xs : List ℕ) → found x xs ≡ false → found x (erase h xs) ≡ false
found-erase h x [] f = refl
found-erase h x (y ∷ xs) f = ground (arith, f, found-erase h x xs)

pub Nodup-erase : (h : ℕ) (xs : List ℕ) → Nodup xs → Nodup (erase h xs)
Nodup-erase h [] n = tt
Nodup-erase h (x ∷ xs) n = elim (Bool-cases (x == h)) [
  | inl b ↦ rw b n.1
  | inr b ↦ rw b (found-erase h x xs n.0, Nodup-erase h xs n.1)
]

pub erase-gone : (h : ℕ) (xs : List ℕ) → Nodup xs → found h (erase h xs) ≡ false
erase-gone h [] n = refl
erase-gone h (x ∷ xs) n = elim (Bool-cases (x == h)) [
  | inl b ↦ rw b (subst (λ y. found y xs ≡ false) ((==_iff x h).0 b) n.0)
  | inr b ↦ rw (b, b) (erase-gone h xs n.1)
]

pub erase-append : (h : ℕ) (xs : List ℕ) → found h xs ≡ false → erase h (xs ++ h ∷ []) ≡ xs
erase-append h [] f = ground arith
erase-append h (x ∷ xs) f = ground (arith, f, erase-append h xs)

pub erase-absent : (h : ℕ) (xs : List ℕ) → found h xs ≡ false → erase h xs ≡ xs
erase-absent h [] f = refl
erase-absent h (x ∷ xs) f = ground (arith, f, erase-absent h xs)

pub found-last : (h : ℕ) (xs : List ℕ) → found h (xs ++ h ∷ []) ≡ true
found-last h [] = ground arith
found-last h (x ∷ xs) = ground (arith, found-last h xs)

pub update-same : (f : ℕ → List ℕ) (n : ℕ) (hs : List ℕ) → update f n hs n ≡ hs
update-same f n hs = ground arith

pub update-other :
    (f : ℕ → List ℕ) (n m : ℕ) (hs : List ℕ) → (m == n) ≡ false → update f n hs m ≡ f m
update-other f n m hs e = rw e refl

pub update-Nodup :
    (f : ℕ → List ℕ) (n : ℕ) (hs : List ℕ)
    → ((m : ℕ) → Nodup (f m))
    → Nodup hs
    → (m : ℕ) → Nodup (update f n hs m)
update-Nodup f n hs v h m = elim (Bool-cases (m == n)) [ inl b ↦ rw b h | inr b ↦ rw b (v m) ]
