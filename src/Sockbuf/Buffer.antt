-- ===== src/Sockbuf/Buffer.antt =====
-- The buffered side of `sockbuf` (socket++/sockstream.cpp): the virtual functions of `streambuf`
-- that it overrides. A character is a byte; the value `none` of `int_type` is `eofValue`.
use cpr.Common.{
  ℕ, zero, suc, ◌+◌, ◌-◌, ◌%◌, List, [], ◌∷◌, ◌++◌, Option, none, some, ◌&&◌, ◌==◌, ltb, leb,
  Action, Result, ok, thrown, running, err, sockoob, written, pure, out_of_fuel, gets, modify,
  ◌>>=◌, ◌>>◌, if◌then◌else◌, take, drop, get_or, set, memcpy, length, codes, decimal,
}
use cpr.Os.{Os}
use cpr.Sockbuf.State.{Sock, GetArea, PutArea}
use cpr.Sockbuf.Io.{read, write}

-- `while (pfrom < pptr ()) *pto++ = *pfrom++;` with the rounds that are left.
unfoldable pub copy_down : ℕ → ℕ → ℕ → List ℕ → List ℕ
copy_down zero pto pfrom mem = mem
copy_down (suc k) pto pfrom mem =
    copy_down k (suc pto) (suc pfrom) (set mem pto (get_or mem pfrom 0))

-- The put area after a write of only `wlen` bytes: what was not written moves to the front.
abbrev pub reposition : ℕ → ℕ → PutArea → PutArea
reposition pend wlen p =
    let len = p.pptr - wlen in
    record { pmem = copy_down len 0 wlen p.pmem; pptr = len; epptr = pend }

abbrev pub reset_put : ℕ → PutArea → PutArea
reset_put pend p = record p { pptr = 0; epptr = pend }

-- The specification in the `err` that `sync` throws.
pub error_message : List ℕ → ℕ → List ℕ
error_message sockname zero = codes "(" ++ sockname ++ codes ")"
error_message sockname (suc n) =
    codes "(" ++ sockname ++ codes ")" ++ codes " wlen=(" ++ decimal (suc n) ++ codes ")"

-- `memcpy (pptr (), xs, …); pbump (…)` on the put area.
abbrev pub fill : List ℕ → Option PutArea → Option PutArea
fill xs none = none
fill xs (some p) = some (record p { pmem = memcpy p.pmem p.pptr xs; pptr = p.pptr + length xs })

abbrev pub room_of : Option PutArea → ℕ
room_of none = 0
room_of (some p) = p.epptr - p.pptr

-- The get area after `gbump (n)`, the characters that are copied before it, and `showmanyc`.
abbrev pub advance : ℕ → Option GetArea → Option GetArea
advance n none = none
advance n (some g) = some (record g { gptr = g.gptr + n })

abbrev pub chars_of : ℕ → Option GetArea → List ℕ
chars_of n none = []
chars_of n (some g) = take n (drop g.gptr g.gmem)

abbrev pub available : Option GetArea → ℕ
available none = 0
available (some g) = if ltb g.gptr g.egptr then g.egptr - g.gptr else 0

module _ {W : Type 0} where
  unfoldable pub gbump : ℕ → Sock W → Sock W
  gbump n s = record s { get = advance n s.get }

  unfoldable pub showmanyc : Sock W → ℕ
  showmanyc s = available s.get

  -- `memcpy (s, gptr (), n); gbump (n)`
  unfoldable pub take_chars : ℕ → Action (Sock W) (List ℕ)
  unfolding gbump
  take_chars n s = (ok (chars_of n s.get), gbump n s)

  -- `memcpy (pptr (), …); pbump (…)`
  unfoldable pub put_chars : List ℕ → Sock W → Sock W
  put_chars xs s = record s { put = fill xs s.put }

  -- `epptr () - pptr ()`
  unfoldable pub room : Sock W → ℕ
  room s = room_of s.put

  unfoldable pub pbackfail : Option ℕ → Action (Sock W) (Option ℕ)
  pbackfail c = pure none

  -- `sync` after a `write` that has thrown the number of bytes written.
  unfoldable pub partial_write : PutArea → ℕ → Sock W → Sock W
  partial_write p zero s = s
  partial_write p (suc n) s = record s { put = some (reposition s.rep.pend (suc n) p) }

  -- What `sync` does with the outcome of `write`, `p` being the put area before it.
  unfoldable pub after_write : PutArea → Result ℕ × Sock W → Result ℕ × Sock W
  after_write p (ok n, s) = (ok 0, record s { put = some (reset_put s.rep.pend p) })
  after_write p (thrown (written wlen), s) = (
    thrown (
        err (record {
          code = s.errno;
          operation = "sockbuf::sync";
          specification = error_message s.sockname wlen;
        })),
    partial_write p wlen s,
  )
  after_write p (thrown (err e), s) = (thrown (err e), s)
  after_write p (thrown sockoob, s) = (thrown sockoob, s)
  after_write p (running, s) = (running, s)

module _ (os : Os) where
  -- `sync`, with `o` the put area. `fuel` is what the loop of `write` may use.
  unfoldable pub sync_on : ℕ → Option PutArea → Action (Sock os.World) ℕ
  sync_on fuel none s = (ok 0, s)
  sync_on fuel (some p) s =
      if ltb 0 p.pptr && leb p.pptr p.epptr
      then after_write p (write os fuel (take p.pptr p.pmem) s)
      else (ok 0, s)

  unfoldable pub sync : ℕ → Action (Sock os.World) ℕ
  unfolding sync_on
  sync fuel s = sync_on fuel s.put s

  -- `underflow` after `read`, with `g` the get area before it.
  unfoldable pub after_read : GetArea → List ℕ → Action (Sock os.World) (Option ℕ)
  after_read g [] s = (ok none, s)
  after_read g (x ∷ xs) s =
      let mem = memcpy g.gmem 0 (x ∷ xs) in
      (
        ok (some (get_or mem 0 0)),
        record s { get = some (record { gmem = mem; gptr = 0; egptr = length (x ∷ xs) }) },
      )

  -- `underflow`, with `o` the get area.
  unfoldable pub underflow_on : Option GetArea → Action (Sock os.World) (Option ℕ)
  underflow_on none s = (ok none, s)
  underflow_on (some g) s =
      if ltb g.gptr g.egptr
      then (ok (some (get_or g.gmem g.gptr 0)), s)
      else (read os s.rep.gend >>= after_read g) s

  unfoldable pub underflow : Action (Sock os.World) (Option ℕ)
  unfolding underflow_on
  underflow s = underflow_on s.get s

  unfoldable pub uflow : Action (Sock os.World) (Option ℕ)
  uflow = do
    ret ← underflow
    elim ret [ none ↦ pure none | some c ↦ modify (gbump 1) >> pure (some c) ]

  -- The characters that are copied to `s`, and the result of the call.
  unfoldable pub xsgetn : ℕ → ℕ → Action (Sock os.World) (List ℕ × ℕ)
  xsgetn zero n = out_of_fuel
  xsgetn (suc fuel) n = do
    rval ← gets showmanyc
    if leb n rval then (do xs ← take_chars n; pure (xs, n)) else (do
      xs ← take_chars rval
      c ← underflow
      elim c [
        | none ↦ pure (xs, rval)
        | some _ ↦ do (ys, more) ← xsgetn fuel (n - rval); pure (xs ++ ys, rval + more)
      ])

  -- `overflow`, with `o` the put area.
  unfoldable pub overflow_on : ℕ → Option PutArea → Option ℕ → Action (Sock os.World) (Option ℕ)
  overflow_on fuel none c s = (ok none, s)
  overflow_on fuel (some p) none s = (sync fuel >>= λ r. pure (some r)) s
  overflow_on fuel (some p) (some x) s =
      ((if p.pptr == p.epptr then sync fuel else pure 0)
          >> modify (put_chars (x % 256 ∷ []))
          >> pure (some x))
        s

  unfoldable pub overflow : ℕ → Option ℕ → Action (Sock os.World) (Option ℕ)
  unfolding overflow_on
  overflow fuel c s = overflow_on fuel s.put c s

  unfoldable pub xsputn : ℕ → ℕ → List ℕ → Action (Sock os.World) ℕ
  xsputn fuel zero bs = out_of_fuel
  xsputn fuel (suc rounds) bs = do
    wval ← gets room
    if leb (length bs) wval then (do modify (put_chars bs); pure (length bs)) else (do
      modify (put_chars (take wval bs))
      c ← overflow fuel none
      elim c [
        | none ↦ pure wval
        | some _ ↦ do more ← xsputn fuel rounds (drop wval bs); pure (wval + more)
      ])

  -- `std::streambuf::sputc`: the character is stored if there is room, or handed to `overflow`.
  unfoldable pub sputc : ℕ → ℕ → Action (Sock os.World) (Option ℕ)
  sputc fuel c = do
    wval ← gets room
    if ltb 0 wval
        then (do modify (put_chars (c % 256 ∷ [])); pure (some (c % 256)))
        else overflow fuel (some (c % 256))
