-- ===== src/Sockbuf/Session.antt =====
-- A program that writes to and reads from one connection (socket++/sockstream.cpp): any sequence of
-- `xsputn`, `sync` and `xsgetn`, against two queues of characters.
pub mod Calls
pub mod Refines
pub mod Bounds
use cpr.Common.{ℕ, suc, ◌+◌, List, [], ◌∷◌, ◌++◌, Action, pure, ◌>>=◌, ◌>>◌, take, drop, length}
use cpr.Os.{Os}
use cpr.Sockbuf.State.{Sock}
use cpr.Sockbuf.Buffer.{xsputn, sync, xsgetn}

pub data Op : Type 0 where
  puts : List ℕ → Op
  flushes : Op
  gets : ℕ → Op

-- What a call writes, and what it takes of the characters that wait and leaves of them.
abbrev pub output : Op → List ℕ
output (puts bs) = bs
output flushes = []
output (gets n) = []

abbrev pub taken : Op → List ℕ → List ℕ
taken (puts bs) xs = []
taken flushes xs = []
taken (gets n) xs = take n xs

abbrev pub left : Op → List ℕ → List ℕ
left (puts bs) xs = xs
left flushes xs = xs
left (gets n) xs = drop n xs

-- The same of a sequence of calls.
unfoldable pub outputs : List Op → List ℕ
outputs [] = []
outputs (op ∷ ops) = output op ++ outputs ops

unfoldable pub all_taken : List Op → List ℕ → List ℕ
all_taken [] xs = []
all_taken (op ∷ ops) xs = taken op xs ++ all_taken ops (left op xs)

unfoldable pub all_left : List Op → List ℕ → List ℕ
all_left [] xs = xs
all_left (op ∷ ops) xs = all_left ops (left op xs)

module _ (os : Os) (fuel : ℕ) where
  -- The calls on a `sockbuf`. The result is what was read.
  unfoldable pub perform : Op → Action (Sock os.World) (List ℕ)
  perform (puts bs) = xsputn os fuel (length bs + 2) bs >> pure []
  perform flushes = sync os fuel >> pure []
  perform (gets n) = xsgetn os (n + 2) n >>= λ (p : List ℕ × ℕ). pure p.0

  unfoldable pub run : List Op → Action (Sock os.World) (List ℕ)
  run [] = pure []
  run (op ∷ ops) = perform op >>= λ xs. run ops >>= λ ys. pure (xs ++ ys)
