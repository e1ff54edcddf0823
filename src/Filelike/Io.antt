-- ===== src/Filelike/Io.antt =====
-- `read` and `write` of `filelikebuf` (socket++/filelikebuf.cpp), where USE_WINSOCK is not defined.
use cpr.Common.{
  ℕ, zero, suc, ◌+◌, List, [], ◌∷◌, Result, Action, thrown, written, out_of_fuel, pure, drop,
}
use cpr.Os.{Os, Sys, done, fails}
use cpr.Filelike.State.{Filelikebuf, checked}

module _ (os : Os) where
  unfoldable pub read : ℕ → Action (Filelikebuf os.World) (List ℕ)
  read len s = checked "filelikebuf::read" (os.read s.rep.file len) s

  -- A round of the loop, with what `::write` has returned: a failure throws the number of bytes
  -- written so far.
  abbrev pub after_write_call :
      (ℕ → Action (Filelikebuf os.World) ℕ)
      → ℕ
      → Filelikebuf os.World
      → Sys ℕ × os.World
      → Result ℕ × Filelikebuf os.World
  after_write_call rest wlen s (done n, w) = rest n (record s { world = w })
  after_write_call rest wlen s (fails e, w) =
      (thrown (written wlen), record s { world = w; errno = e })

  -- `while (len > 0) { … }`, with the rounds that it may make.
  unfoldable pub write_loop : ℕ → List ℕ → ℕ → Action (Filelikebuf os.World) ℕ
  write_loop zero bs wlen s = out_of_fuel s
  write_loop (suc fuel) [] wlen s = pure wlen s
  write_loop (suc fuel) (b ∷ bs) wlen s =
      after_write_call (λ n. write_loop fuel (drop n (b ∷ bs)) (wlen + n)) wlen s
        (os.write s.rep.file (b ∷ bs) s.world)

  unfoldable pub write : ℕ → List ℕ → Action (Filelikebuf os.World) ℕ
  unfolding write_loop
  write fuel bs = write_loop fuel bs 0
