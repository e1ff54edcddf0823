-- ===== src/Sockbuf/Output/Area.antt =====
-- The put area (socket++/sockstream.cpp): its invariant, the characters that wait in it, and how
-- `sync` moves what a short write has left.
use mathlib.Core.Path.{◌≡⟨◌⟩◌, ◌∎}
use cpr.Common.{
  Bool, true, false, take-memcpy, length-memcpy, length-take, ℕ, zero, suc, ◌+◌, ◌-◌, ◌≤◌, ◌≡◌,
  refl, sym, ap, ◌∙◌, List, [], ◌∷◌, ◌++◌, append_assoc, append-nil, Option, none, some, arith,
  take, drop, set, get_or, length, length-set, take-set, drop-set, drop-get_or, drop-take,
}
use cpr.Sockbuf.State.{PutArea}
use cpr.Sockbuf.Buffer.{fill, room_of, copy_down, reposition}

-- The memory has `pend` bytes, `epptr ()` is its end and `pptr ()` lies within.
pub record IsPut (pend : ℕ) (p : PutArea) : Type 0 where
  pub sized : length p.pmem ≡ pend
  pub ends : p.epptr ≡ pend
  pub within : p.pptr ≤ pend

abbrev pub PutValid : ℕ → Option PutArea → Type 0
PutValid pend none = Unit {0}
PutValid pend (some p) = IsPut pend p

-- The characters from `pbase ()` to `pptr ()`.
abbrev pub unflushed : Option PutArea → List ℕ
unflushed none = []
unflushed (some p) = take p.pptr p.pmem

abbrev pub is_open : Option PutArea → Bool
is_open none = false
is_open (some p) = true

pub length-copy_down :
    (k pto pfrom : ℕ) (mem : List ℕ) → length (copy_down k pto pfrom mem) ≡ length mem
unfolding copy_down
length-copy_down zero pto pfrom mem = refl
length-copy_down (suc k) pto pfrom mem =
    length-copy_down k (suc pto) (suc pfrom) _ ∙ length-set mem pto (get_or mem pfrom 0)

pub take-copy_down :
    (k pto pfrom : ℕ) (mem : List ℕ)
    → pto ≤ pfrom
    → pfrom + k ≤ length mem
    → take (pto + k) (copy_down k pto pfrom mem) ≡ take pto mem ++ take k (drop pfrom mem)
unfolding copy_down
take-copy_down zero pto pfrom mem h l =
    ap (λ n. take n mem) (omega arith) ∙ sym (append-nil (take pto mem))
take-copy_down (suc k) pto pfrom mem h l =
    take (pto + suc k) (copy_down k (suc pto) (suc pfrom) mem')
    ≡⟨ ap (λ n. take n (copy_down k (suc pto) (suc pfrom) mem')) (omega arith) ⟩
      take (suc pto + k) (copy_down k (suc pto) (suc pfrom) mem')
    ≡⟨ take-copy_down k (suc pto) (suc pfrom) mem' (omega arith)
        (omega (arith, length-set mem pto c)) ⟩
      take (suc pto) mem' ++ take k (drop (suc pfrom) mem')
    ≡⟨ rw (take-set mem pto c (omega arith), drop-set mem pto (suc pfrom) c (omega arith)) refl ⟩
      (take pto mem ++ c ∷ []) ++ take k (drop (suc pfrom) mem)
    ≡⟨ append_assoc (take pto mem) (c ∷ []) _ ⟩ take pto mem ++ c ∷ take k (drop (suc pfrom) mem)
    ≡⟨ ap (λ xs. take pto mem ++ take (suc k) xs) (sym (drop-get_or mem pfrom 0 (omega arith))) ⟩
      take pto mem ++ take (suc k) (drop pfrom mem) ∎
  where
    c : ℕ
    c = get_or mem pfrom 0

    mem' : List ℕ
    mem' = set mem pto c

pub reposition-IsPut :
    (pend wlen : ℕ) (p : PutArea) → IsPut pend p → IsPut pend (reposition pend wlen p)
reposition-IsPut pend wlen p v = record {
  sized = length-copy_down (p.pptr - wlen) 0 wlen p.pmem ∙ v.sized;
  ends = refl;
  within = omega arith;
}

-- Exactly the characters that were not written are left.
pub unflushed-reposition :
    (pend wlen : ℕ) (p : PutArea)
    → IsPut pend p
    → wlen ≤ p.pptr
    → unflushed (some (reposition pend wlen p)) ≡ drop wlen (unflushed (some p))
unflushed-reposition pend wlen p v h =
    take len (copy_down len 0 wlen p.pmem)
    ≡⟨ ap (λ n. take n (copy_down len 0 wlen p.pmem)) (omega arith) ⟩
      take (0 + len) (copy_down len 0 wlen p.pmem)
    ≡⟨ take-copy_down len 0 wlen p.pmem (omega arith) (omega arith) ⟩ take len (drop wlen p.pmem)
    ≡⟨ sym (drop-take wlen len p.pmem) ⟩ drop wlen (take (wlen + len) p.pmem)
    ≡⟨ ap (λ n. drop wlen (take n p.pmem)) (omega arith) ⟩ drop wlen (take p.pptr p.pmem) ∎
  where
    len : ℕ
    len = p.pptr - wlen

-- Characters that fit are appended to those that wait.
pub unflushed-fill :
    (pend : ℕ) (xs : List ℕ) (o : Option PutArea)
    → PutValid pend o
    → is_open o ≡ true
    → length xs ≤ room_of o
    → (unflushed (fill xs o) ≡ unflushed o ++ xs)
      × PutValid pend (fill xs o)
      × (is_open (fill xs o) ≡ true)
unflushed-fill pend xs none v open_ h = cc
unflushed-fill pend xs (some p) v open_ h = (
  take-memcpy p.pmem p.pptr xs (omega arith),
  record {
    sized = length-memcpy p.pmem p.pptr xs (omega arith) ∙ v.sized;
    ends = v.ends;
    within = omega arith;
  },
  refl,
)

pub room_of-unflushed :
    (pend : ℕ) (o : Option PutArea)
    → PutValid pend o
    → is_open o ≡ true
    → room_of o + length (unflushed o) ≡ pend
room_of-unflushed pend none v open_ = cc
room_of-unflushed pend (some p) v open_ = omega (arith, length-take p.pptr p.pmem)
