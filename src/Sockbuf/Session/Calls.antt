-- ===== src/Sockbuf/Session/Calls.antt =====
-- How a call on a `sockbuf` (socket++/sockstream.cpp) ends, seen as two queues of characters.
use mathlib.Core.Path.{ap₂}
use cpr.Common.{
  ℕ, ◌+◌, ◌≤◌, ◌<◌, ◌≡◌, refl, sym, ap, ◌∙◌, subst, List, [], ◌++◌, append-nil, arith, Result, ok,
  thrown, running, written, err, sockoob, follow, pure, take, drop, length,
}
use cpr.Os.{Os}
use cpr.Os.Laws.{Duplex}
use cpr.Sockbuf.State.{Sock}
use cpr.Sockbuf.Buffer.{xsputn, sync, xsgetn}
use cpr.Sockbuf.Unmoved.Directions.{read-accepted, write-pending}
use cpr.Sockbuf.Unmoved.Buffered.{xsputn-Unmoved, sync-Unmoved, xsgetn-Unmoved}
use cpr.Sockbuf.Output.Area.{PutValid, unflushed, is_open}
use cpr.Sockbuf.Output.Flush.{SameInput, history, Synced, sync-Synced}
use cpr.Sockbuf.Output.Put.{IsWriter, IsWriter-same, Puts, xsputn-Puts}
use cpr.Sockbuf.Input.Area.{GetValid, unread, can_read}
use cpr.Sockbuf.Input.Underflow.{SameOutput, stream, IsReader, IsReader-same}
use cpr.Sockbuf.Input.Get.{Gets, xsgetn-Gets}
use cpr.Sockbuf.Session.{Op, puts, flushes, gets, output, taken, left, perform}

module _ (os : Os) (fd : ℕ) (duplex : Duplex os fd) where
  abbrev pub written_by : Sock os.World → List ℕ
  written_by s = history os fd duplex.output s

  abbrev pub waiting_for : Sock os.World → List ℕ
  waiting_for s = stream os fd duplex.input s

  -- The object may write and read.
  pub record IsOpen (s : Sock os.World) : Type 0 where
    pub writer : IsWriter os fd duplex.output s
    pub reader : IsReader os fd duplex.input s

  -- Calls on one side keep the other open.
  put-IsOpen :
      (s t : Sock os.World) → IsOpen s → SameInput s t → PutValid t.rep.pend t.put → IsOpen t
  put-IsOpen s t o same v = record {
    writer = IsWriter-same os fd duplex.output s t o.writer same v;
    reader = record {
      valid =
          subst (λ n. GetValid n t.get) (sym (ap (λ r. r.gend) same.rep))
            (subst (GetValid s.rep.gend) (sym same.get) o.reader.valid);
      opened = ap can_read same.get ∙ o.reader.opened;
      at = ap (λ r. r.sock) same.rep ∙ o.reader.at;
      roomy = subst (λ n. 0 < n) (sym (ap (λ r. r.gend) same.rep)) o.reader.roomy;
    };
  }

  get-IsOpen :
      (s t : Sock os.World) → IsOpen s → SameOutput s t → GetValid t.rep.gend t.get → IsOpen t
  get-IsOpen s t o same v = record {
    reader = IsReader-same os fd duplex.input s t o.reader same v;
    writer = record {
      valid =
          subst (λ n. PutValid n t.put) (sym (ap (λ r. r.pend) same.rep))
            (subst (PutValid s.rep.pend) (sym same.put) o.writer.valid);
      opened = ap is_open same.put ∙ o.writer.opened;
      at = ap (λ r. r.sock) same.rep ∙ o.writer.at;
      roomy = subst (λ n. 0 < n) (sym (ap (λ r. r.pend) same.rep)) o.writer.roomy;
    };
  }

  -- A front part of `out` was written, and a front part of what waits was read, with nothing lost
  -- but what the call that has thrown had read.
  abbrev pub Stops : List ℕ → Sock os.World → Sock os.World → Type 0
  Stops out s t =
      ((k : ℕ) × (k ≤ length out) × (written_by t ≡ written_by s ++ take k out))
      × ((j : ℕ) × (waiting_for t ≡ drop j (waiting_for s)))

  -- How a call ends.
  abbrev pub Performs : Op → Sock os.World → Result (List ℕ) × Sock os.World → Type 0
  Performs op s (ok xs, t) =
      (written_by t ≡ written_by s ++ output op)
      × (xs ≡ taken op (waiting_for s))
      × (waiting_for t ≡ left op (waiting_for s))
      × IsOpen t
      × (t.rep ≡ s.rep)
  Performs op s (thrown e, t) = Stops (output op) s t × IsOpen t × (t.rep ≡ s.rep)
  Performs op s (running, t) = ⊥

  put_waiting :
      (s t : Sock os.World)
      → SameInput s t
      → duplex.input.pending t.world fd ≡ duplex.input.pending s.world fd
      → waiting_for t ≡ waiting_for s
  put_waiting s t same p = ap₂ (λ o xs. unread o ++ xs) same.get p

  get_written :
      (s t : Sock os.World)
      → SameOutput s t
      → duplex.output.accepted t.world fd ≡ duplex.output.accepted s.world fd
      → written_by t ≡ written_by s
  get_written s t same a = ap₂ (λ xs o. xs ++ unflushed o) a same.put

  puts-Performs :
      (bs : List ℕ) (s : Sock os.World) (r : Result ℕ × Sock os.World)
      → IsOpen s
      → Puts os fd duplex.output bs s r
      → duplex.input.pending r.1.world fd ≡ duplex.input.pending s.world fd
      → Performs (puts bs) s (follow (λ _. pure []) r)
  puts-Performs bs s (ok n, t) o (e, h, v, same) p =
      (h, refl, put_waiting s t same p, put-IsOpen s t o same v, same.rep)
  puts-Performs bs s (thrown (err x), t) o (k, l, h, v, same) p =
      (((k, omega arith, h), (0, put_waiting s t same p)), put-IsOpen s t o same v, same.rep)
  puts-Performs bs s (thrown (written n), t) o q p = absurd q
  puts-Performs bs s (thrown sockoob, t) o q p = absurd q
  puts-Performs bs s (running, t) o q p = q

  flushes-Performs :
      (s : Sock os.World) (r : Result ℕ × Sock os.World)
      → IsOpen s
      → Synced os fd duplex.output s r
      → duplex.input.pending r.1.world fd ≡ duplex.input.pending s.world fd
      → Performs flushes s (follow (λ _. pure []) r)
  flushes-Performs s (ok n, t) o (z, e, h, v, same) p = (
    h ∙ sym (append-nil (written_by s)),
    refl,
    put_waiting s t same p,
    put-IsOpen s t o same v,
    same.rep,
  )
  flushes-Performs s (thrown (err x), t) o (h, v, same) p = (
    ((0, omega arith, h ∙ sym (append-nil (written_by s))), (0, put_waiting s t same p)),
    put-IsOpen s t o same v,
    same.rep,
  )
  flushes-Performs s (thrown (written n), t) o q p = absurd q
  flushes-Performs s (thrown sockoob, t) o q p = absurd q
  flushes-Performs s (running, t) o q p = q

  gets-Performs :
      (n : ℕ) (s : Sock os.World) (r : Result (List ℕ × ℕ) × Sock os.World)
      → IsOpen s
      → Gets os fd duplex.input n s r
      → duplex.output.accepted r.1.world fd ≡ duplex.output.accepted s.world fd
      → Performs (gets n) s (follow (λ (p : List ℕ × ℕ). pure p.0) r)
  gets-Performs n s (ok (xs, k), t) o (x, l, e, v, same) a = (
    get_written s t same a ∙ sym (append-nil (written_by s)),
    x,
    e,
    get-IsOpen s t o same v,
    same.rep,
  )
  gets-Performs n s (thrown (err x), t) o (k, l, e, v, same) a = (
    ((0, omega arith, get_written s t same a ∙ sym (append-nil (written_by s))), (k, e)),
    get-IsOpen s t o same v,
    same.rep,
  )
  gets-Performs n s (thrown sockoob, t) o (k, l, e, v, same) a = (
    ((0, omega arith, get_written s t same a ∙ sym (append-nil (written_by s))), (k, e)),
    get-IsOpen s t o same v,
    same.rep,
  )
  gets-Performs n s (thrown (written m), t) o q a = absurd q
  gets-Performs n s (running, t) o q a = q

  pub perform-Performs :
      (fuel : ℕ) (op : Op) (s : Sock os.World)
      → IsOpen s
      → s.rep.pend < fuel
      → Performs op s (perform os fuel op s)
  unfolding perform
  perform-Performs fuel (puts bs) s o f =
      puts-Performs bs s (xsputn os fuel (length bs + 2) bs s) o
        (xsputn-Puts os fd duplex.output fuel (length bs + 2) bs s o.writer f (omega arith))
        (xsputn-Unmoved os (λ w. duplex.input.pending w fd) (write-pending os fd duplex) fuel
          (length bs + 2) bs s)
  perform-Performs fuel flushes s o f =
      flushes-Performs s (sync os fuel s) o
        (sync-Synced os fd duplex.output fuel s o.writer.valid o.writer.at f)
        (sync-Unmoved os (λ w. duplex.input.pending w fd) (write-pending os fd duplex) fuel s)
  perform-Performs fuel (gets n) s o f =
      gets-Performs n s (xsgetn os (n + 2) n s) o
        (xsgetn-Gets os fd duplex.input (n + 2) n s o.reader (omega arith))
        (xsgetn-Unmoved os (λ w. duplex.output.accepted w fd) (read-accepted os fd duplex) (n + 2) n
          s)
