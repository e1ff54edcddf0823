-- ===== src/Tests/Files.antt =====
-- Runs of a `filelikebuf`, and the examples to its theorems.
use cpr.Common.{ℕ, List, ◌≡◌, refl, [], ◌∷◌, none, some, arith, ok}
use cpr.Filelike.State.{Filelikebuf, construct}
use cpr.Filelike.Buffer.{sync, overflow, xsputn, underflow, uflow, xsgetn, put_chars}
use cpr.Filelike.Fresh.{construct-Unreadable, flush-Unusable}
use cpr.Filelike.First.{Flushed, construct-Flushed}
use cpr.Tests.Demo.{demo, start, Wire}
use cpr.Tests.DemoLaws.{demo_out}

-- A pipe's buffer of four characters, with two characters to write.
abbrev file : Filelikebuf Wire
file = record {
  rep = record { file = 5; gend = none; pend = none };
  get = none;
  put = some (record { pmem = 97 ∷ 98 ∷ 0 ∷ 0 ∷ []; pptr = 2; epptr = some 4 });
  sockname = [];
  errno = 0;
  world = record start { plan = [] };
}

abbrev zeros : List ℕ
zeros = 0 ∷ 0 ∷ 0 ∷ 0 ∷ []

construct-Flushed_example :
    (t : Filelikebuf Wire) × (xsputn demo 4 1
        (97 ∷ 98 ∷ 99 ∷ [])
        (construct 4 3 zeros zeros 0 start)
      ≡ some (ok 3, t))
    × (t.world ≡ start)
    × Flushed demo 3 demo_out (97 ∷ 98 ∷ 99 ∷ []) start (sync demo 4 t)
construct-Flushed_example =
    construct-Flushed demo 3 demo_out 4 0 4 zeros zeros (97 ∷ 98 ∷ 99 ∷ []) 0 start refl
      (omega arith) (omega arith) (omega arith)

construct-Unreadable_example :
    let s = construct 4 5 (0 ∷ 0 ∷ 0 ∷ 0 ∷ []) (0 ∷ 0 ∷ 0 ∷ 0 ∷ []) 0 start in
    (underflow demo s ≡ none) × (uflow demo s ≡ none) × (xsgetn demo 1 1 s ≡ none)
construct-Unreadable_example =
    construct-Unreadable demo 4 5 (0 ∷ 0 ∷ 0 ∷ 0 ∷ []) (0 ∷ 0 ∷ 0 ∷ 0 ∷ []) 0 start 0 0

abbrev flushed : Filelikebuf Wire
flushed = record file {
  put = some (record { pmem = 97 ∷ 98 ∷ 0 ∷ 0 ∷ []; pptr = 0; epptr = none });
  world = record start { plan = []; sent = 97 ∷ 98 ∷ [] };
}

file_syncs : sync demo 3 file ≡ some (ok 0, flushed)
unfolding sync cpr.Filelike.Buffer.after_write cpr.Filelike.Io.write
file_syncs = refl

flush-Unusable_example : xsputn demo 3 1 (99 ∷ []) flushed ≡ none
flush-Unusable_example =
    flush-Unusable demo 3 0 0 4 (99 ∷ [])
      (record { pmem = 97 ∷ 98 ∷ 0 ∷ 0 ∷ []; pptr = 2; epptr = some 4 }) file flushed refl refl refl
      (omega arith) (omega arith) file_syncs
