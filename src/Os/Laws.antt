-- ===== src/Os/Laws.antt =====
-- What the code relies on of the system calls, stated over two observations of the system: the
-- bytes that a descriptor has accepted so far, and those that it will still deliver.
use cpr.Common.{ℕ, ◌≤◌, ◌<◌, ◌≡◌, List, [], ◌++◌, length, take, ℤ, Option}
use cpr.Os.{Os, Sys, done, fails, Watch, Request}

module _ {W : Type 0} (accepted : W → ℕ → List ℕ) (fd : ℕ) where
  -- A transfer takes a front part of the bytes, of at least one if there are any, or fails and
  -- takes none.
  abbrev pub Transfers : List ℕ → W → Sys ℕ × W → Type 0
  Transfers bs w (done n, w') =
      (n ≤ length bs) × (0 < length bs → 0 < n) × (accepted w' fd ≡ accepted w fd ++ take n bs)
  Transfers bs w (fails e, w') = accepted w' fd ≡ accepted w fd

  -- A call that neither accepts nor delivers bytes.
  abbrev pub Keeps : {A : Type 0} → W → Sys A × W → Type 0
  Keeps w (r, w') = accepted w' fd ≡ accepted w fd

module _ {W : Type 0} (pending : W → ℕ → List ℕ) (fd : ℕ) where
  -- A read delivers the next bytes, no more than asked for, or fails and loses none. It delivers
  -- nothing only if nothing was asked for or no byte is left.
  abbrev pub Delivers : ℕ → W → Sys (List ℕ) × W → Type 0
  Delivers n w (done xs, w') =
      (length xs ≤ n) × (pending w fd ≡ xs ++ pending w' fd) × (0 < n → xs ≡ [] → pending w fd ≡ [])
  Delivers n w (fails e, w') = pending w' fd ≡ pending w fd

-- The output side of a descriptor.
pub record Output (os : Os) (fd : ℕ) : Type 0 where
  pub accepted : os.World → ℕ → List ℕ
  pub write_takes : (bs : List ℕ) (w : os.World) → Transfers accepted fd bs w (os.write fd bs w)
  pub write_select :
      (watch : Watch) (t : Option (ℤ × ℤ)) (w : os.World)
      → Keeps accepted fd w (os.select watch fd t w)

-- The input side of a descriptor.
pub record Input (os : Os) (fd : ℕ) : Type 0 where
  pub pending : os.World → ℕ → List ℕ
  pub read_gives : (n : ℕ) (w : os.World) → Delivers pending fd n w (os.read fd n w)
  pub read_select :
      (watch : Watch) (t : Option (ℤ × ℤ)) (w : os.World)
      → Keeps pending fd w (os.select watch fd t w)
  pub read_ioctl : (r : Request) (arg : ℤ) (w : os.World) → Keeps pending fd w (os.ioctl fd r arg w)

-- A connection whose two directions do not disturb each other.
pub record Duplex (os : Os) (fd : ℕ) : Type 0 where
  pub output : Output os fd
  pub input : Input os fd
  pub select_keeps :
      (watch : Watch) (d : ℕ) (t : Option (ℤ × ℤ)) (w : os.World)
      → (output.accepted (os.select watch d t w).1 fd ≡ output.accepted w fd)
        × (input.pending (os.select watch d t w).1 fd ≡ input.pending w fd)
  pub ioctl_keeps :
      (d : ℕ) (r : Request) (arg : ℤ) (w : os.World)
      → (output.accepted (os.ioctl d r arg w).1 fd ≡ output.accepted w fd)
        × (input.pending (os.ioctl d r arg w).1 fd ≡ input.pending w fd)
  pub read_keeps :
      (d n : ℕ) (w : os.World) → output.accepted (os.read d n w).1 fd ≡ output.accepted w fd
  pub write_keeps :
      (d : ℕ) (xs : List ℕ) (w : os.World)
      → input.pending (os.write d xs w).1 fd ≡ input.pending w fd
