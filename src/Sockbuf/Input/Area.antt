-- ===== src/Sockbuf/Input/Area.antt =====
-- The get area (socket++/sockstream.cpp): its invariant and the characters that are unread.
use cpr.Common.{
  ℕ, zero, suc, ◌+◌, ◌-◌, ◌≤◌, ◌<◌, ◌≡◌, refl, sym, ap, ◌∙◌, List, [], ◌∷◌, Option, none, some,
  Bool, true, false, arith, take, drop, get_or, length, memcpy, length-take, length-drop, take-take,
  drop-take, drop-drop, take-memcpy, length-memcpy, drop-get_or,
}
use cpr.Sockbuf.State.{GetArea}
use cpr.Sockbuf.Buffer.{advance, chars_of, available}

-- The memory has `gend` bytes; `gptr ()` is at most `egptr ()`, and that at most the end.
pub record IsGet (gend : ℕ) (g : GetArea) : Type 0 where
  pub sized : length g.gmem ≡ gend
  pub within : g.egptr ≤ gend
  pub ordered : g.gptr ≤ g.egptr

abbrev pub GetValid : ℕ → Option GetArea → Type 0
GetValid gend none = Unit {0}
GetValid gend (some g) = IsGet gend g

-- The characters from `gptr ()` to `egptr ()`.
abbrev pub unread : Option GetArea → List ℕ
unread none = []
unread (some g) = take (g.egptr - g.gptr) (drop g.gptr g.gmem)

abbrev pub can_read : Option GetArea → Bool
can_read none = false
can_read (some g) = true

pub length-unread :
    (gend : ℕ) (o : Option GetArea) → GetValid gend o → available o ≡ length (unread o)
length-unread gend none v = refl
length-unread gend (some g) v =
    ground (arith, length-take (g.egptr - g.gptr) (drop g.gptr g.gmem), length-drop g.gptr g.gmem)

-- Taking `k` characters that are there.
pub unread-advance :
    (gend k : ℕ) (o : Option GetArea)
    → GetValid gend o
    → k ≤ length (unread o)
    → (chars_of k o ≡ take k (unread o))
      × (unread (advance k o) ≡ drop k (unread o))
      × GetValid gend (advance k o)
      × (can_read (advance k o) ≡ can_read o)
unread-advance gend zero none v h = (refl, refl, tt, refl)
unread-advance gend (suc k) none v h = absurd (omega arith)
unread-advance gend k (some g) v h = (
  sym (take-take k (g.egptr - g.gptr) (drop g.gptr g.gmem) l),
  shifted,
  record { sized = v.sized; within = v.within; ordered = omega (arith, l, v.ordered) },
  refl,
)
  where
    l : k ≤ g.egptr - g.gptr
    l = omega (arith, length-take (g.egptr - g.gptr) (drop g.gptr g.gmem))

    j : ℕ
    j = g.egptr - (g.gptr + k)

    shifted :
        take j (drop (g.gptr + k) g.gmem) ≡ drop k (take (g.egptr - g.gptr) (drop g.gptr g.gmem))
    shifted =
        ap (take j) (sym (drop-drop k g.gptr g.gmem))
        ∙ sym (drop-take k j (drop g.gptr g.gmem))
        ∙ ap (λ n. drop k (take n (drop g.gptr g.gmem))) (omega (arith, l, v.ordered))

-- The character at `gptr ()`, where one is unread.
pub take-unread :
    (gend : ℕ) (g : GetArea)
    → IsGet gend g
    → g.gptr < g.egptr
    → take 1 (unread (some g)) ≡ get_or g.gmem g.gptr 0 ∷ []
take-unread gend g v h =
    take-take 1 (g.egptr - g.gptr) (drop g.gptr g.gmem) (omega arith)
    ∙ ap (take 1) (drop-get_or g.gmem g.gptr 0 (omega arith))

-- The get area that a read of `xs` fills.
abbrev pub refilled : List ℕ → List ℕ → GetArea
refilled mem xs = record { gmem = memcpy mem 0 xs; gptr = 0; egptr = length xs }

pub unread-refill :
    (gend : ℕ) (mem : List ℕ) (x : ℕ) (xs : List ℕ)
    → length mem ≡ gend
    → length (x ∷ xs) ≤ gend
    → (unread (some (refilled mem (x ∷ xs))) ≡ x ∷ xs)
      × GetValid gend (some (refilled mem (x ∷ xs)))
unread-refill gend mem x xs e h = (
  ap (λ n. take n (memcpy mem 0 (x ∷ xs))) (omega arith) ∙ take-memcpy mem 0 (x ∷ xs) (omega arith),
  record {
    sized = length-memcpy mem 0 (x ∷ xs) (omega arith) ∙ e;
    within = h;
    ordered = omega arith;
  },
)
