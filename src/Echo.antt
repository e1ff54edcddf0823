-- ===== src/Echo.antt =====
-- The echo server (socket++/echo.h, socket++/echo.cpp): what a child does with its connection, up to
-- `sleep` and `exit`.
pub mod Relay
pub mod Server
pub mod Forked
pub mod Binding
pub mod Children
pub mod Child
use cpr.Common.{
  ℕ, zero, suc, ◌-◌, List, [], ◌∷◌, ◌==◌, Action, pure, out_of_fuel, ◌>>=◌, ◌>>◌, if◌then◌else◌,
  take, length,
}
use cpr.Os.{Os}
use cpr.Sockbuf.State.{Sock}
use cpr.Sockbuf.Io.{read, write}

module _ (os : Os) (fuel : ℕ) where
  -- `while (rcnt != 0)`, with the rounds that it may make. The result of `write` is never -1.
  unfoldable pub write_back : ℕ → List ℕ → ℕ → Action (Sock os.World) (Unit {0})
  write_back zero buf rcnt = out_of_fuel
  write_back (suc rounds) buf rcnt =
      if rcnt == 0
      then pure tt
      else (do wcnt ← write os fuel (take rcnt buf); write_back rounds buf (rcnt - wcnt))

  -- `while ((rcnt = s.read (buf, 1024)) > 0)`
  unfoldable pub relay : ℕ → Action (Sock os.World) (Unit {0})
  relay zero = out_of_fuel
  relay (suc rounds) = do
    buf ← read os 1024
    elim buf [ [] ↦ pure tt | c ∷ cs ↦ write_back 2 (c ∷ cs) (length (c ∷ cs)) >> relay rounds ]
