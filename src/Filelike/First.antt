-- ===== src/Filelike/First.antt =====
-- The first flush of a `filelikebuf` (socket++/filelikebuf.cpp), whose constructor keeps null ends of
-- the buffers.
use cpr.Common.{
  ℕ, zero, suc, ◌+◌, ◌-◌, ◌≤◌, ◌<◌, ◌≡◌, refl, sym, ap, ◌∙◌, subst, List, [], ◌∷◌, ◌++◌, append-nil,
  Option, none, some, true, false, leb, ltb, Result, ok, thrown, running, written, err, sockoob,
  negsuc, take, drop, length, memcpy, arith, take-memcpy, length-memcpy, length-take,
}
use cpr.Os.{Os, Sys, done, fails}
use cpr.Os.Laws.{Output}
use cpr.Sockbuf.State.{Sock, PutArea}
use cpr.Sockbuf.Io as Sockbuf
use cpr.Sockbuf.Output.Area.{IsPut, unflushed-reposition}
use cpr.Sockbuf.Output.Wait.{Writes, write-Writes}
use cpr.Filelike.State.{Filelikebuf, PutPointers, construct, filecnt, file_name}
use cpr.Filelike.Io.{write, write_loop}
use cpr.Filelike.Buffer.{sync, sync_on, flush, after_write, partial_write, xsputn, room, put_chars}
use cpr.Filelike.Alike.{of_sock, Plain, Alike, AlikeOn, pointers_of}
use cpr.Filelike.Alike.Io.{write-Alike}

-- The same object with the two ends null.
abbrev bare : {W : Type 0} → Filelikebuf W → Filelikebuf W
bare s = record s { rep = record s.rep { gend = none; pend = none } }

abbrev on_bare : {W A : Type 0} → Result A × Filelikebuf W → Result A × Filelikebuf W
on_bare (r, t) = (r, bare t)

-- The characters in the put area.
abbrev pub waiting : Option PutPointers → List ℕ
waiting none = []
waiting (some p) = take p.pptr p.pmem

module _ (os : Os) where
  -- `write` does not look at the ends.
  round-bare :
      (fuel b : ℕ) (bs : List ℕ) (wlen : ℕ) (s : Filelikebuf os.World) (v : Sys ℕ × os.World)
      → os.write s.rep.file (b ∷ bs) s.world ≡ v
      → ((xs : List ℕ) (n : ℕ) (t : Filelikebuf os.World)
          → write_loop os fuel xs n (bare t) ≡ on_bare (write_loop os fuel xs n t))
      → write_loop os (suc fuel) (b ∷ bs) wlen (bare s)
        ≡ on_bare (write_loop os (suc fuel) (b ∷ bs) wlen s)
  unfolding write_loop
  round-bare fuel b bs wlen s (done n, w) e ih =
      rw e (ih (drop n (b ∷ bs)) (wlen + n) (record s { world = w }))
  round-bare fuel b bs wlen s (fails x, w) e ih = rw e refl

  write_loop-bare :
      (fuel : ℕ) (bs : List ℕ) (wlen : ℕ) (s : Filelikebuf os.World)
      → write_loop os fuel bs wlen (bare s) ≡ on_bare (write_loop os fuel bs wlen s)
  unfolding write_loop
  write_loop-bare zero bs wlen s = refl
  write_loop-bare (suc fuel) [] wlen s = refl
  write_loop-bare (suc fuel) (b ∷ bs) wlen s =
      round-bare fuel b bs wlen s _ refl (write_loop-bare fuel)

module _ (os : Os) (fd : ℕ) (out : Output os fd) where
  -- How `write` ends: all bytes are accepted, or a proper front part of them.
  abbrev FileWrites : List ℕ → Filelikebuf os.World → Result ℕ × Filelikebuf os.World → Type 0
  FileWrites bs s (ok n, t) =
      (out.accepted t.world fd ≡ out.accepted s.world fd ++ bs) × (t.put ≡ s.put)
  FileWrites bs s (thrown (written k), t) =
      (k < length bs)
      × (out.accepted t.world fd ≡ out.accepted s.world fd ++ take k bs)
      × (t.put ≡ s.put)
  FileWrites bs s (thrown (err e), t) =
      (out.accepted t.world fd ≡ out.accepted s.world fd) × (t.put ≡ s.put)
  FileWrites bs s (thrown sockoob, t) = ⊥
  FileWrites bs s (running, t) = ⊥

  Alike-FileWrites :
      (bs : List ℕ) (s t : Sock os.World) (x : Result ℕ) (f : Filelikebuf os.World) (y : Result ℕ)
      → AlikeOn x f y t
      → Writes os fd out bs s (y, t)
      → FileWrites bs (of_sock s) (on_bare (x, f))
  Alike-FileWrites bs s t (ok n) f (ok m) (e, plain, same) (l, a, o) =
      (ap (λ u. out.accepted u.world fd) same ∙ a, ap (λ u. u.put) same ∙ ap pointers_of o.put)
  Alike-FileWrites bs s t (ok n) f (thrown e) q h = absurd q
  Alike-FileWrites bs s t (ok n) f running q h = absurd q
  Alike-FileWrites bs s t (thrown e) f (ok n) q h = absurd q
  Alike-FileWrites bs s t (thrown (err e)) f (thrown (err x)) (e', plain, same) (a, o) =
      (ap (λ u. out.accepted u.world fd) same ∙ a, ap (λ u. u.put) same ∙ ap pointers_of o.put)
  Alike-FileWrites bs s t (thrown (err e)) f (thrown (written n)) q h = absurd q.0
  Alike-FileWrites bs s t (thrown (err e)) f (thrown sockoob) q h = absurd q.0
  Alike-FileWrites bs s t (thrown (written k)) f (thrown (written n)) (e, plain, same) (l, a, o) =
      rw e
        (l, ap (λ u. out.accepted u.world fd) same ∙ a, ap (λ u. u.put) same ∙ ap pointers_of o.put)
  Alike-FileWrites bs s t (thrown (written k)) f (thrown (err x)) q h = absurd q.0
  Alike-FileWrites bs s t (thrown (written k)) f (thrown sockoob) q h = absurd q.0
  Alike-FileWrites bs s t (thrown sockoob) f (thrown e) q h = absurd q.0
  Alike-FileWrites bs s t (thrown e) f running q h = absurd q
  Alike-FileWrites bs s t running f (ok n) q h = absurd q
  Alike-FileWrites bs s t running f (thrown e) q h = absurd q
  Alike-FileWrites bs s t running f running q h = absurd h

  both-FileWrites :
      (bs : List ℕ) (s : Sock os.World) (x : Result ℕ × Filelikebuf os.World)
      (y : Result ℕ × Sock os.World)
      → Alike (some x) y
      → Writes os fd out bs s y
      → FileWrites bs (of_sock s) (on_bare x)
  unfolding Alike
  both-FileWrites bs s (x, f) (y, t) q h = Alike-FileWrites bs s t x f y q h

  write-FileWrites :
      (fuel : ℕ) (bs : List ℕ) (s : Sock os.World)
      → Plain s.rep
      → s.rep.sock ≡ fd
      → length bs < fuel
      → FileWrites bs (of_sock s) (write os fuel bs (bare (of_sock s)))
  unfolding write
  write-FileWrites fuel bs s p at l =
      subst (FileWrites bs (of_sock s)) (sym (write_loop-bare os fuel bs 0 (of_sock s))) (
        both-FileWrites bs s (write os fuel bs (of_sock s)) (Sockbuf.write os fuel bs s)
          (write-Alike os fuel bs s p) (write-Writes os fd out fuel bs s at l))

  -- How the first `sync` ends, `bs` being what was put: the system has all of it, or a proper front
  -- part, and the rest still waits.
  abbrev pub Flushed : List ℕ → os.World → Option (Result ℕ × Filelikebuf os.World) → Type 0
  Flushed bs w none = ⊥
  Flushed bs w (some (ok n, t)) =
      (n ≡ 0) × (waiting t.put ≡ []) × (out.accepted t.world fd ≡ out.accepted w fd ++ bs)
  Flushed bs w (some (thrown (err e), t)) =
      (k : ℕ) × (k < length bs)
      × (out.accepted t.world fd ≡ out.accepted w fd ++ take k bs)
      × (waiting t.put ≡ drop k bs)
  Flushed bs w (some (thrown (written n), t)) = ⊥
  Flushed bs w (some (thrown sockoob, t)) = ⊥
  Flushed bs w (some (running, t)) = ⊥

  after_write-Flushed :
      (bs : List ℕ) (p : PutArea) (pend : ℕ) (s : Filelikebuf os.World)
      (r : Result ℕ × Filelikebuf os.World)
      → IsPut pend p
      → 0 < length bs
      → take p.pptr p.pmem ≡ bs
      → s.put ≡ pointers_of (some p)
      → FileWrites bs s r
      → Flushed bs s.world
          (some (after_write (record { pmem = p.pmem; pptr = p.pptr; epptr = some p.epptr }) r))
  unfolding after_write partial_write
  after_write-Flushed bs p pend s (ok n, t) v l e q (a, o) = (refl, refl, a)
  after_write-Flushed bs p pend s (thrown (written zero), t) v l e q (m, a, o) =
      (0, l, a, ap waiting (o ∙ q) ∙ e)
  after_write-Flushed bs p pend s (thrown (written (suc k)), t) v l e q (m, a, o) = (
    suc k,
    m,
    a,
    unflushed-reposition pend (suc k) p v (omega (arith, m, ap length e, length-take p.pptr p.pmem))
        ∙ ap (drop (suc k)) e,
  )
  after_write-Flushed bs p pend s (thrown (err x), t) v l e q (a, o) =
      (0, l, a ∙ sym (append-nil (out.accepted s.world fd)), ap waiting (o ∙ q) ∙ e)
  after_write-Flushed bs p pend s (thrown sockoob, t) v l e q h = h
  after_write-Flushed bs p pend s (running, t) v l e q h = h

  -- The object behind the constructor and `xsputn`.
  abbrev filled : ℕ → List ℕ → List ℕ → List ℕ → ℕ → os.World → Sock os.World
  filled bufsiz gbuf pbuf bs errno w = record {
    rep = record {
      sock = fd;
      stmo = negsuc 0;
      rtmo = negsuc 0;
      oob = false;
      gend = bufsiz;
      pend = bufsiz;
    };
    get = some (record { gmem = gbuf; gptr = bufsiz; egptr = bufsiz });
    put = some (record { pmem = memcpy pbuf 0 bs; pptr = 0 + length bs; epptr = bufsiz });
    sockname = file_name fd;
    errno = errno;
    world = w;
  }

  sync-Flushed :
      (fuel bufsiz : ℕ) (gbuf pbuf bs : List ℕ) (errno : ℕ) (w : os.World)
      → length pbuf ≡ bufsiz
      → 0 < length bs
      → length bs ≤ bufsiz
      → length bs < fuel
      → Flushed bs w (sync os fuel (bare (of_sock (filled bufsiz gbuf pbuf bs errno w))))
  unfolding sync sync_on flush
  sync-Flushed fuel bufsiz gbuf pbuf bs errno w z l h f =
      let s = filled bufsiz gbuf pbuf bs errno w in
      let all : take (0 + length bs) (memcpy pbuf 0 bs) ≡ bs =
        take-memcpy pbuf 0 bs (omega arith) in
      let some_wait : ltb 0 (0 + length bs) ≡ true = ground arith in
      let within : leb (0 + length bs) bufsiz ≡ true = ground arith in
      let sized : length (memcpy pbuf 0 bs) ≡ bufsiz = length-memcpy pbuf 0 bs (omega arith) ∙ z in
      rw (some_wait, within)
        (after_write-Flushed bs _ bufsiz (bare (of_sock s)) _
          (record { sized = sized; ends = refl; within = omega arith }) l all refl
          (subst (λ xs. FileWrites bs (of_sock s) (write os fuel xs (bare (of_sock s)))) (sym all)
            (write-FileWrites fuel bs s (record { no_stmo = refl; no_rtmo = refl; no_oob = refl })
              refl f)))

  -- On a new `filelikebuf`, `xsputn` of a text that is not empty and fits into the buffer
  -- returns its length and makes no system call, and the first `sync` behind it is defined and
  -- always ends, with fuel above the text's length, though the ends of the buffers that the
  -- constructor keeps are null. If it returns, it returns 0, the system has accepted exactly
  -- the text, and nothing waits in the buffer. If it throws, an `err`, the system has accepted
  -- a proper front part of the text, and exactly the rest of it waits.
  pub construct-Flushed :
      (fuel rounds bufsiz : ℕ) (gbuf pbuf bs : List ℕ) (errno : ℕ) (w : os.World)
      → length pbuf ≡ bufsiz
      → 0 < length bs
      → length bs ≤ bufsiz
      → length bs < fuel
      → (t : Filelikebuf os.World) × (xsputn os fuel
            (suc rounds)
            bs
            (construct bufsiz fd gbuf pbuf errno w)
          ≡ some (ok (length bs), t))
        × (t.world ≡ w)
        × Flushed bs w (sync os fuel t)
  unfolding xsputn room put_chars construct filecnt
  construct-Flushed fuel rounds bufsiz gbuf pbuf bs errno w z l h f =
      let fits : leb (length bs) (bufsiz - 0) ≡ true = ground arith in
      (
        bare (of_sock (filled bufsiz gbuf pbuf bs errno w)),
        rw fits refl,
        refl,
        sync-Flushed fuel bufsiz gbuf pbuf bs errno w z l h f,
      )
