-- ===== src/Filelike/Buffer.antt =====
-- The virtual functions of `streambuf` that `filelikebuf` overrides (socket++/filelikebuf.cpp). A
-- character is a byte; the value `none` of `int_type` is `EOF`.
use cpr.Common.{
  ℕ, zero, suc, ◌+◌, ◌-◌, ◌%◌, List, [], ◌∷◌, ◌++◌, Option, none, some, Bool, false, ◌==◌, ltb, leb,
  Result, ok, thrown, running, err, sockoob, written, pure, out_of_fuel, follow, gets, modify,
  if◌then◌else◌, take, drop, get_or, memcpy, length,
}
use cpr.Os.{Os}
use cpr.Sockbuf.State.{GetArea}
use cpr.Sockbuf.Buffer.{copy_down, error_message, advance, chars_of, available}
use cpr.Filelike.State.{Filelikebuf, PutPointers, Partial, undefined, surely, ◌>>=◌, ◌>>◌}
use cpr.Filelike.Io.{read, write}

-- The put area after a write of only `wlen` bytes: what was not written moves to the front.
abbrev pub reposition : Option ℕ → ℕ → PutPointers → PutPointers
reposition pend wlen p =
    let len = p.pptr - wlen in
    record { pmem = copy_down len 0 wlen p.pmem; pptr = len; epptr = pend }

abbrev pub reset_put : Option ℕ → PutPointers → PutPointers
reset_put pend p = record p { pptr = 0; epptr = pend }

-- `memcpy (pptr (), xs, …); pbump (…)` on the put area.
abbrev pub fill : List ℕ → Option PutPointers → Option PutPointers
fill xs none = none
fill xs (some p) = some (record p { pmem = memcpy p.pmem p.pptr xs; pptr = p.pptr + length xs })

-- `pptr () == epptr ()`: no pointer into the buffer is null.
abbrev pub meets : ℕ → Option ℕ → Bool
meets pptr none = false
meets pptr (some n) = pptr == n

module _ {W : Type 0} where
  unfoldable pub gbump : ℕ → Filelikebuf W → Filelikebuf W
  gbump n s = record s { get = advance n s.get }

  unfoldable pub showmanyc : Filelikebuf W → ℕ
  showmanyc s = available s.get

  -- `memcpy (s, gptr (), n); gbump (n)`
  unfoldable pub take_chars : ℕ → Partial (Filelikebuf W) (List ℕ)
  unfolding gbump
  take_chars n s = some (ok (chars_of n s.get), gbump n s)

  unfoldable pub put_chars : List ℕ → Filelikebuf W → Filelikebuf W
  put_chars xs s = record s { put = fill xs s.put }

  -- `epptr () - pptr ()`, with `o` the put area.
  abbrev pub distance : ℕ → Option ℕ → Partial (Filelikebuf W) ℕ
  distance pptr none = undefined
  distance pptr (some n) = surely (pure (n - pptr))

  abbrev pub room_on : Option PutPointers → Partial (Filelikebuf W) ℕ
  room_on none = surely (pure 0)
  room_on (some p) = distance p.pptr p.epptr

  unfoldable pub room : Partial (Filelikebuf W) ℕ
  room s = room_on s.put s

  unfoldable pub pbackfail : Option ℕ → Partial (Filelikebuf W) (Option ℕ)
  pbackfail c = surely (pure none)

  -- `sync` after a `write` that has thrown the number of bytes written.
  unfoldable pub partial_write : PutPointers → ℕ → Filelikebuf W → Filelikebuf W
  partial_write p zero s = s
  partial_write p (suc n) s = record s { put = some (reposition s.rep.pend (suc n) p) }

  -- What `sync` does with the outcome of `write`, `p` being the put area before it.
  unfoldable pub after_write : PutPointers → Result ℕ × Filelikebuf W → Result ℕ × Filelikebuf W
  after_write p (ok n, s) = (ok 0, record s { put = some (reset_put s.rep.pend p) })
  after_write p (thrown (written wlen), s) = (
    thrown (
        err (record {
          code = s.errno;
          operation = "filelikebuf::sync";
          specification = error_message s.sockname wlen;
        })),
    partial_write p wlen s,
  )
  after_write p (thrown (err e), s) = (thrown (err e), s)
  after_write p (thrown sockoob, s) = (thrown sockoob, s)
  after_write p (running, s) = (running, s)

module _ (os : Os) where
  -- `sync` where there are characters, with `pptr () <= epptr ()` still to be tested.
  unfoldable pub flush : ℕ → PutPointers → Option ℕ → Partial (Filelikebuf os.World) ℕ
  flush fuel p none s = undefined s
  flush fuel p (some n) s =
      if leb p.pptr n
      then some (after_write p (write os fuel (take p.pptr p.pmem) s))
      else some (ok 0, s)

  -- `sync`, with `o` the put area. `fuel` is what the loop of `write` may use.
  unfoldable pub sync_on : ℕ → Option PutPointers → Partial (Filelikebuf os.World) ℕ
  unfolding flush
  sync_on fuel none s = some (ok 0, s)
  sync_on fuel (some p) s = if ltb 0 p.pptr then flush fuel p p.epptr s else some (ok 0, s)

  unfoldable pub sync : ℕ → Partial (Filelikebuf os.World) ℕ
  unfolding sync_on
  sync fuel s = sync_on fuel s.put s

  unfoldable pub pubsync : ℕ → Partial (Filelikebuf os.World) ℕ
  pubsync fuel = sync fuel

  -- `underflow` after `read`, with `g` the get area before it.
  unfoldable pub after_read :
      GetArea → List ℕ → Filelikebuf os.World → Result (Option ℕ) × Filelikebuf os.World
  after_read g [] s = (ok none, s)
  after_read g (x ∷ xs) s =
      let mem = memcpy g.gmem 0 (x ∷ xs) in
      (
        ok (some (get_or mem 0 0)),
        record s { get = some (record { gmem = mem; gptr = 0; egptr = length (x ∷ xs) }) },
      )

  -- `read (eback (), rep->gend - eback ())`, and what `underflow` does with it.
  unfoldable pub refill : GetArea → Option ℕ → Partial (Filelikebuf os.World) (Option ℕ)
  unfolding after_read
  refill g none s = undefined s
  refill g (some n) s = some (follow (after_read g) (read os n s))

  -- `underflow`, with `o` the get area.
  unfoldable pub underflow_on : Option GetArea → Partial (Filelikebuf os.World) (Option ℕ)
  unfolding refill
  underflow_on none s = some (ok none, s)
  underflow_on (some g) s =
      if ltb g.gptr g.egptr
      then some (ok (some (get_or g.gmem g.gptr 0)), s)
      else refill g s.rep.gend s

  unfoldable pub underflow : Partial (Filelikebuf os.World) (Option ℕ)
  unfolding underflow_on
  underflow s = underflow_on s.get s

  unfoldable pub uflow : Partial (Filelikebuf os.World) (Option ℕ)
  uflow = do
    ret ← underflow
    elim ret [
      | none ↦ surely (pure none)
      | some c ↦ surely (modify (gbump 1)) >> surely (pure (some c))
    ]

  -- The characters that are copied to `s`, and the result of the call.
  unfoldable pub xsgetn : ℕ → ℕ → Partial (Filelikebuf os.World) (List ℕ × ℕ)
  xsgetn zero n = surely out_of_fuel
  xsgetn (suc fuel) n = do
    rval ← surely (gets showmanyc)
    if leb n rval then (do xs ← take_chars n; surely (pure (xs, n))) else (do
      xs ← take_chars rval
      c ← underflow
      elim c [
        | none ↦ surely (pure (xs, rval))
        | some _ ↦ do (ys, more) ← xsgetn fuel (n - rval); surely (pure (xs ++ ys, rval + more))
      ])

  -- `overflow`, with `o` the put area.
  unfoldable pub overflow_on :
      ℕ → Option PutPointers → Option ℕ → Partial (Filelikebuf os.World) (Option ℕ)
  overflow_on fuel none c s = some (ok none, s)
  overflow_on fuel (some p) none s = (sync fuel >>= λ r. surely (pure (some r))) s
  overflow_on fuel (some p) (some x) s =
      ((if meets p.pptr p.epptr then sync fuel else surely (pure 0))
          >> surely (modify (put_chars (x % 256 ∷ [])))
          >> surely (pure (some x)))
        s

  unfoldable pub overflow : ℕ → Option ℕ → Partial (Filelikebuf os.World) (Option ℕ)
  unfolding overflow_on
  overflow fuel c s = overflow_on fuel s.put c s

  unfoldable pub xsputn : ℕ → ℕ → List ℕ → Partial (Filelikebuf os.World) ℕ
  xsputn fuel zero bs = surely out_of_fuel
  xsputn fuel (suc rounds) bs = do
    wval ← room
    if leb (length bs) wval
        then (do surely (modify (put_chars bs)); surely (pure (length bs)))
        else (do
          surely (modify (put_chars (take wval bs)))
          c ← overflow fuel none
          elim c [
            | none ↦ surely (pure wval)
            | some _ ↦ do more ← xsputn fuel rounds (drop wval bs); surely (pure (wval + more))
          ])
