-- ===== src/Common/Actions.antt =====
-- Code that changes state and throws. What was written before a throw stays written.
use Prim.Native.Nat.{ℕ}
use Prim.Native.String.{String}
use mathlib.Core.List.{List}

-- The constructor of `socketpp::err`: errno, the operation, and the specification.
pub record Err : Type 0 where
  pub code : ℕ
  pub operation : String
  pub specification : List ℕ

-- What the library throws: an `err`, a `sockoob`, or the number of bytes that were written.
pub data Thrown : Type 0 where
  err : Err → Thrown
  sockoob : Thrown
  written : ℕ → Thrown

-- `running` is a loop that has used up its fuel and not returned.
pub data Result {ℓ} (A : Type ℓ) : Type ℓ where
  ok : A → Result A
  thrown : Thrown → Result A
  running : Result A

abbrev pub Action : Type 0 → Type 0 → Type 0
Action S A = S → Result A × S

module _ {S A : Type 0} where
  abbrev pub pure : A → Action S A
  pure a s = (ok a, s)

  abbrev pub throw : Thrown → Action S A
  throw e s = (thrown e, s)

  abbrev pub out_of_fuel : Action S A
  out_of_fuel s = (running, s)

abbrev pub gets : {S A : Type 0} → (S → A) → Action S A
gets f s = (ok (f s), s)

abbrev pub modify : {S : Type 0} → (S → S) → Action S (Unit {0})
modify f s = (ok tt, f s)

-- The rest of a block, once the first part has ended.
abbrev pub follow : {S A B : Type 0} → (A → Action S B) → Result A × S → Result B × S
follow f (ok a, s) = f a s
follow f (thrown e, s) = (thrown e, s)
follow f (running, s) = (running, s)

infixl 5 ◌>>=◌ ◌>>◌
abbrev pub ◌>>=◌ : {S A B : Type 0} → Action S A → (A → Action S B) → Action S B
◌>>=◌ m f s = follow f (m s)

abbrev pub ◌>>◌ : {S A B : Type 0} → Action S A → Action S B → Action S B
◌>>◌ m k s = follow (λ _. k) (m s)
