-- ===== src/Tests/Buffers.antt =====
-- Witnesses of the theorems about the buffers of `sockbuf`.
use cpr.Common.{negsuc, false, ℕ, List, [], ◌∷◌, some, refl, arith}
use cpr.Sockbuf.State.{Sock}
use cpr.Sockbuf.Buffer.{sync, xsputn, overflow, uflow}
use cpr.Sockbuf.Output.Flush.{Synced, sync-Synced}
use cpr.Sockbuf.Output.Put.{Puts, IsWriter, xsputn-Puts}
use cpr.Sockbuf.Output.Char.{PutsChar, overflow-PutsChar}
use cpr.Sockbuf.Output.Wait.{Writes, write-Writes}
use cpr.Sockbuf.Io.{write}
use cpr.Sockbuf.Input.Underflow.{IsReader, Takes}
use cpr.Sockbuf.Input.Get.{uflow-Takes}
use cpr.Sockbuf.Manipulators.{crlf, lfcr, EndsLine, crlf-EndsLine}
use cpr.Tests.Demo.{demo, Wire, start}
use cpr.Tests.DemoLaws.{demo_out, demo_inp}

-- An object with buffers of four bytes.
abbrev pub zeros : List ℕ
zeros = 0 ∷ 0 ∷ 0 ∷ 0 ∷ []

abbrev pub sock : Sock Wire
sock = record {
  rep = record { sock = 3; stmo = negsuc 0; rtmo = negsuc 0; oob = false; gend = 4; pend = 4 };
  get = some (record { gmem = zeros; gptr = 4; egptr = 4 });
  put = some (record { pmem = zeros; pptr = 0; epptr = 4 });
  sockname = [];
  errno = 0;
  world = start;
}

abbrev six : List ℕ
six = 1 ∷ 2 ∷ 3 ∷ 4 ∷ 5 ∷ 6 ∷ []

pub sock-IsWriter : IsWriter demo 3 demo_out sock
sock-IsWriter = record { valid = omega arith; opened = refl; at = refl; roomy = omega arith }

sock-IsReader : IsReader demo 3 demo_inp sock
sock-IsReader = record { valid = omega arith; opened = refl; at = refl; roomy = omega arith }

write-Writes_example : Writes demo 3 demo_out six sock (write demo 9 six sock)
write-Writes_example = write-Writes demo 3 demo_out 9 six sock refl (omega arith)

xsputn-Puts_example : Puts demo 3 demo_out six sock (xsputn demo 9 9 six sock)
xsputn-Puts_example =
    xsputn-Puts demo 3 demo_out 9 9 six sock sock-IsWriter (omega arith) (omega arith)

sync-Synced_example : Synced demo 3 demo_out sock (sync demo 9 sock)
sync-Synced_example = sync-Synced demo 3 demo_out 9 sock sock-IsWriter.valid refl (omega arith)

overflow-PutsChar_example : PutsChar demo 3 demo_out 44 300 sock (overflow demo 9 (some 300) sock)
overflow-PutsChar_example = overflow-PutsChar demo 3 demo_out 9 300 sock sock-IsWriter (omega arith)

uflow-Takes_example : Takes demo 3 demo_inp sock (uflow demo sock)
uflow-Takes_example = uflow-Takes demo 3 demo_inp sock sock-IsReader

crlf-EndsLine_example :
    EndsLine demo 3 demo_out (13 ∷ 10 ∷ []) sock (crlf demo 9 (record { buf = sock; bad = false }))
    × EndsLine demo 3 demo_out
        (10 ∷ 13 ∷ [])
        sock
        (lfcr demo 9 (record { buf = sock; bad = false }))
crlf-EndsLine_example = crlf-EndsLine demo 3 demo_out 9 sock sock-IsWriter (omega arith)
