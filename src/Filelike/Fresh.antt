-- ===== src/Filelike/Fresh.antt =====
-- A `filelikebuf` as its constructor leaves it (socket++/filelikebuf.cpp, filelikebuf.h): `filecnt`
-- sets `gend` and `pend` to null, and no code sets them after.
use cpr.Common.{
  ℕ, zero, suc, ◌+◌, ◌≤◌, ◌<◌, ◌≡◌, refl, sym, ap, ◌∙◌, List, [], ◌∷◌, Option, none, some, true,
  false, ltb, leb, Result, ok, thrown, running, written, err, sockoob, arith, drop, take,
}
use cpr.Os.{Os, Sys, done, fails}
use cpr.Sockbuf.State.{GetArea}
use cpr.Sockbuf.Buffer.{available}
use cpr.Filelike.State.{Filelikebuf, PutPointers, construct, filecnt}
use cpr.Filelike.Io.{write, write_loop}
use cpr.Filelike.Buffer.{
  sync, sync_on, flush, after_write, xsputn, room, room_on, underflow, underflow_on, refill, uflow,
  xsgetn, showmanyc, take_chars, gbump,
}

module _ (os : Os) where
  -- With `gend` null and nothing unread, `underflow` asks for `gend - eback ()` bytes.
  refill-unset :
      (g : GetArea) (o : Option ℕ) (s : Filelikebuf os.World) → o ≡ none → refill os g o s ≡ none
  unfolding refill
  refill-unset g none s z = refl
  refill-unset g (some n) s z = cc

  underflow_on-unset :
      (g : GetArea) (s : Filelikebuf os.World)
      → s.rep.gend ≡ none
      → ltb g.gptr g.egptr ≡ false
      → underflow_on os (some g) s ≡ none
  unfolding underflow_on
  underflow_on-unset g s z b = rw b (refill-unset g s.rep.gend s z)

  xsgetn-unset :
      (rounds n : ℕ) (s : Filelikebuf os.World)
      → available s.get ≡ 0
      → underflow os (gbump 0 s) ≡ none
      → xsgetn os (suc rounds) (suc n) s ≡ none
  unfolding xsgetn showmanyc take_chars
  xsgetn-unset rounds n s z e =
      let wanting : leb (suc n) 0 ≡ false = ground arith in rw (z, wanting, e) refl

  uflow-unset : (s : Filelikebuf os.World) → underflow os s ≡ none → uflow os s ≡ none
  unfolding uflow
  uflow-unset s e = rw e refl

  -- On a `filelikebuf` as its constructor leaves it, `underflow`, `uflow` and `xsgetn` of at
  -- least one character are undefined.
  pub construct-Unreadable :
      (bufsiz fd : ℕ) (gbuf pbuf : List ℕ) (errno : ℕ) (w : os.World) (rounds n : ℕ)
      → let s = construct bufsiz fd gbuf pbuf errno w in
        (underflow os s ≡ none) × (uflow os s ≡ none) × (xsgetn os (suc rounds) (suc n) s ≡ none)
  unfolding underflow construct filecnt gbump
  construct-Unreadable bufsiz fd gbuf pbuf errno w rounds n =
      let s : Filelikebuf os.World = construct bufsiz fd gbuf pbuf errno w in
      let none_left : ltb bufsiz bufsiz ≡ false = ground arith in
      let g : GetArea = record { gmem = gbuf; gptr = bufsiz; egptr = bufsiz } in
      let g' : GetArea = record { gmem = gbuf; gptr = bufsiz + 0; egptr = bufsiz } in
      let u : underflow os s ≡ none = underflow_on-unset g s refl none_left in
      (
        u,
        uflow-unset s u,
        xsgetn-unset rounds n s (rw none_left refl)
            (underflow_on-unset g' (gbump 0 s) refl (ground arith)),
      )

  -- The loop of `write` leaves `rep` alone.
  round-rep :
      (fuel b : ℕ) (bs : List ℕ) (wlen : ℕ) (s : Filelikebuf os.World) (v : Sys ℕ × os.World)
      → os.write s.rep.file (b ∷ bs) s.world ≡ v
      → ((xs : List ℕ) (n : ℕ) (t : Filelikebuf os.World)
          → (write_loop os fuel xs n t).1.rep ≡ t.rep)
      → (write_loop os (suc fuel) (b ∷ bs) wlen s).1.rep ≡ s.rep
  unfolding write_loop
  round-rep fuel b bs wlen s (done n, w) e ih = rw e (ih (drop n (b ∷ bs)) (wlen + n) _)
  round-rep fuel b bs wlen s (fails x, w) e ih = rw e refl

  write_loop-rep :
      (fuel : ℕ) (bs : List ℕ) (wlen : ℕ) (s : Filelikebuf os.World)
      → (write_loop os fuel bs wlen s).1.rep ≡ s.rep
  unfolding write_loop
  write_loop-rep zero bs wlen s = refl
  write_loop-rep (suc fuel) [] wlen s = refl
  write_loop-rep (suc fuel) (b ∷ bs) wlen s =
      round-rep fuel b bs wlen s _ refl (write_loop-rep fuel)

  -- A put area whose `epptr ()` is null has no room that C++ defines.
  xsputn-unset :
      (fuel rounds : ℕ) (bs : List ℕ) (p : PutPointers) (o : Option ℕ) (t : Filelikebuf os.World)
      → t.put ≡ some (record p { pptr = 0; epptr = o })
      → o ≡ none
      → xsputn os fuel (suc rounds) bs t ≡ none
  unfolding xsputn room
  xsputn-unset fuel rounds bs p o t e z =
      let no_room : room_on t.put t ≡ none =
        ap (λ q. room_on q t) e ∙ ap (λ q. room_on (some (record p { pptr = 0; epptr = q })) t) z in
      rw no_room refl

  after_write-unset :
      (fuel rounds k : ℕ) (bs : List ℕ) (p : PutPointers) (r : Result ℕ × Filelikebuf os.World)
      (t : Filelikebuf os.World)
      → r.1.rep.pend ≡ none
      → some (after_write p r) ≡ some (ok k, t)
      → xsputn os fuel (suc rounds) bs t ≡ none
  unfolding after_write
  after_write-unset fuel rounds k bs p (ok n, u) t z e =
      let same : record u { put = some (record p { pptr = 0; epptr = u.rep.pend }) } ≡ t = cc in
      xsputn-unset fuel rounds bs p u.rep.pend t (sym (ap (λ v. v.put) same)) z
  after_write-unset fuel rounds k bs p (thrown (written n), u) t z e = absurd (cc e)
  after_write-unset fuel rounds k bs p (thrown (err x), u) t z e = absurd (cc e)
  after_write-unset fuel rounds k bs p (thrown sockoob, u) t z e = absurd (cc e)
  after_write-unset fuel rounds k bs p (running, u) t z e = absurd (cc e)

  flushes :
      (fuel n : ℕ) (p : PutPointers) (s : Filelikebuf os.World)
      → leb p.pptr n ≡ true
      → flush os fuel p (some n) s ≡ some (after_write p (write os fuel (take p.pptr p.pmem) s))
  unfolding flush
  flushes fuel n p s c = rw c refl

  sync-flushes :
      (fuel n : ℕ) (p : PutPointers) (s : Filelikebuf os.World)
      → s.put ≡ some p
      → p.epptr ≡ some n
      → ltb 0 p.pptr ≡ true
      → leb p.pptr n ≡ true
      → sync os fuel s ≡ some (after_write p (write os fuel (take p.pptr p.pmem) s))
  unfolding sync sync_on flush
  sync-flushes fuel n p s e epptr b c =
      ap (λ o. sync_on os fuel o s) e
      ∙ rw b (ap (λ o. flush os fuel p o s) epptr ∙ flushes fuel n p s c)

  -- If `pend` of a `filelikebuf` is null, and a `sync` that has had characters to write from a
  -- put area with its end has returned, then `xsputn` of any text is undefined on the object
  -- that it leaves.
  pub flush-Unusable :
      (fuel rounds k n : ℕ) (bs : List ℕ) (p : PutPointers) (s t : Filelikebuf os.World)
      → s.rep.pend ≡ none
      → s.put ≡ some p
      → p.epptr ≡ some n
      → 0 < p.pptr
      → p.pptr ≤ n
      → sync os fuel s ≡ some (ok k, t)
      → xsputn os fuel (suc rounds) bs t ≡ none
  unfolding write
  flush-Unusable fuel rounds k n bs p s t z e epptr l h done_ =
      let b : ltb 0 p.pptr ≡ true = ground arith in
      let c : leb p.pptr n ≡ true = ground arith in
      after_write-unset fuel rounds k bs p (write_loop os fuel (take p.pptr p.pmem) 0 s) t
        (ap (λ r. r.pend) (write_loop-rep fuel (take p.pptr p.pmem) 0 s) ∙ z)
        (sym (sync-flushes fuel n p s e epptr b c) ∙ done_)
