-- ===== src/Sockbuf/Output/Put.antt =====
-- `xsputn`, `overflow` and `sputc` (socket++/sockstream.cpp).
use cpr.Common.{
  ℕ, zero, suc, ◌≤◌, ◌<◌, ◌+◌, ◌≡◌, refl, sym, ap, ◌∙◌, subst, List, [], ◌++◌, arith, Result, ok,
  thrown, running, written, err, sockoob, take, drop, length, true, false, Bool-cases, inl, inr,
  Option, none, some, append_assoc, take-append-drop, leb, length-take, length-drop, min, take-add,
  leb→le, follow,
}
use cpr.Os.{Os}
use cpr.Os.Laws.{Output}
use cpr.Sockbuf.State.{Sock, PutArea}
use cpr.Sockbuf.Buffer.{sync, overflow, overflow_on, xsputn, put_chars, room}
use cpr.Sockbuf.Output.Area.{PutValid, unflushed, is_open, unflushed-fill, room_of-unflushed}
use cpr.Sockbuf.Output.Flush.{SameInput, history, Synced, sync-Synced}

module _ (os : Os) (fd : ℕ) (out : Output os fd) where
  -- The object may write: its put area is there and valid, and its descriptor is `fd`.
  pub record IsWriter (s : Sock os.World) : Type 0 where
    pub valid : PutValid s.rep.pend s.put
    pub opened : is_open s.put ≡ true
    pub at : s.rep.sock ≡ fd
    pub roomy : 0 < s.rep.pend

  pub IsWriter-same :
      (s t : Sock os.World) → IsWriter s → SameInput s t → PutValid t.rep.pend t.put → IsWriter t
  IsWriter-same s t w same v = record {
    valid = v;
    opened = same.opened ∙ w.opened;
    at = ap (λ r. r.sock) same.rep ∙ w.at;
    roomy = subst (λ n. 0 < n) (sym (ap (λ r. r.pend) same.rep)) w.roomy;
  }

  pub SameInput-trans : {s t u : Sock os.World} → SameInput s t → SameInput t u → SameInput s u
  SameInput-trans p q = record {
    rep = q.rep ∙ p.rep;
    get = q.get ∙ p.get;
    sockname = q.sockname ∙ p.sockname;
    opened = q.opened ∙ p.opened;
  }

  -- How `xsputn` ends: all characters are in the history, or an error has come after some of them.
  abbrev pub Puts : List ℕ → Sock os.World → Result ℕ × Sock os.World → Type 0
  Puts bs s (ok n, t) =
      (n ≡ length bs)
      × (history os fd out t ≡ history os fd out s ++ bs)
      × PutValid t.rep.pend t.put
      × SameInput s t
  Puts bs s (thrown (err e), t) =
      (k : ℕ) × (k < length bs)
      × (history os fd out t ≡ history os fd out s ++ take k bs)
      × PutValid t.rep.pend t.put
      × SameInput s t
  Puts bs s (thrown (written n), t) = ⊥
  Puts bs s (thrown sockoob, t) = ⊥
  Puts bs s (running, t) = ⊥

  pub put_chars-Puts :
      (s : Sock os.World) (xs : List ℕ)
      → IsWriter s
      → length xs ≤ room s
      → (history os fd out (put_chars xs s) ≡ history os fd out s ++ xs)
        × PutValid (put_chars xs s).rep.pend (put_chars xs s).put
        × SameInput s (put_chars xs s)
  unfolding put_chars room
  put_chars-Puts s xs w h =
      let (e, v, o) = unflushed-fill s.rep.pend xs s.put w.valid w.opened h in
      (
        ap (λ ys. out.accepted s.world fd ++ ys) e
            ∙ sym (append_assoc (out.accepted s.world fd) (unflushed s.put) xs),
        v,
        record { rep = refl; get = refl; sockname = refl; opened = o ∙ sym w.opened },
      )

  -- With nothing in the buffer there is room.
  pub room_when_empty :
      (s : Sock os.World) → IsWriter s → unflushed s.put ≡ [] → room s ≡ s.rep.pend
  unfolding room
  room_when_empty s w e =
      omega (arith, room_of-unflushed s.rep.pend s.put w.valid w.opened, ap length e)

  overflow_on-eof :
      (fuel : ℕ) (s : Sock os.World) (o : Option PutArea)
      → is_open o ≡ true
      → overflow_on os fuel o none s ≡ follow (λ r u. (ok (some r), u)) (sync os fuel s)
  unfolding overflow_on
  overflow_on-eof fuel s none e = cc
  overflow_on-eof fuel s (some p) e = refl

  -- A call that puts the rest after `k` characters, seen as one that puts all.
  join-Puts :
      (bs : List ℕ) (k : ℕ) (s t : Sock os.World) (r : Result ℕ × Sock os.World)
      → k ≤ length bs
      → history os fd out t ≡ history os fd out s ++ take k bs
      → SameInput s t
      → Puts (drop k bs) t r
      → Puts bs s (follow (λ more u. (ok (k + more), u)) r)
  join-Puts bs k s t (ok n, u) l e same (e', a, v, same') = (
    omega (arith, e', length-drop k bs),
    rw (a, e, append_assoc (history os fd out s) (take k bs) (drop k bs), take-append-drop k bs),
    v,
    SameInput-trans same same',
  )
  join-Puts bs k s t (thrown (err x), u) l e same (m, l', a, v, same') = (
    k + m,
    omega (arith, length-drop k bs),
    rw (a, e, append_assoc (history os fd out s) (take k bs) (take m (drop k bs)), take-add k m bs),
    v,
    SameInput-trans same same',
  )
  join-Puts bs k s t (thrown (written n), u) l e same p = p
  join-Puts bs k s t (thrown sockoob, u) l e same p = p
  join-Puts bs k s t (running, u) l e same p = p

  after_sync-Puts :
      (fuel rounds : ℕ) (bs : List ℕ) (s : Sock os.World) (r : Result ℕ × Sock os.World)
      → IsWriter s
      → leb (length bs) (room s) ≡ false
      → let t = put_chars (take (room s) bs) s in
        sync os fuel t ≡ r
        → Synced os fd out t r
        → ((u : Sock os.World)
            → IsWriter u
            → SameInput s u
            → room u ≡ u.rep.pend
            → Puts (drop (room s) bs) u (xsputn os fuel rounds (drop (room s) bs) u))
        → Puts bs s (xsputn os fuel (suc rounds) bs s)
  unfolding xsputn overflow
  after_sync-Puts fuel rounds bs s (ok n, u) w b e (z, empty, h, v, same) ih =
      let (h0, v0, same0) =
        put_chars-Puts s (take (room s) bs) w (omega (arith, length-take (room s) bs)) in
      let same' = SameInput-trans same0 same in
      let w' = IsWriter-same s u w same' v in
      rw (b, overflow_on-eof fuel (put_chars (take (room s) bs) s) _ (same0.opened ∙ w.opened), e)
        (join-Puts bs (room s) s u (xsputn os fuel rounds (drop (room s) bs) u) (ground arith)
          (h ∙ h0) same' (ih u w' same' (room_when_empty u w' empty)))
  after_sync-Puts fuel rounds bs s (thrown (err x), u) w b e (h, v, same) ih =
      let (h0, v0, same0) =
        put_chars-Puts s (take (room s) bs) w (omega (arith, length-take (room s) bs)) in
      rw (b, overflow_on-eof fuel (put_chars (take (room s) bs) s) _ (same0.opened ∙ w.opened), e)
        (room s, ground arith, h ∙ h0, v, SameInput-trans same0 same)
  after_sync-Puts fuel rounds bs s (thrown (written k), u) w b e p ih = absurd p
  after_sync-Puts fuel rounds bs s (thrown sockoob, u) w b e p ih = absurd p
  after_sync-Puts fuel rounds bs s (running, u) w b e p ih = absurd p

  xsputn_fits :
      (fuel rounds : ℕ) (bs : List ℕ) (s : Sock os.World)
      → IsWriter s
      → leb (length bs) (room s) ≡ true
      → Puts bs s (xsputn os fuel (suc rounds) bs s)
  unfolding xsputn
  xsputn_fits fuel rounds bs s w b =
      let (h, v, same) = put_chars-Puts s bs w (leb→le (length bs) (room s) b) in
      rw b (refl, h, v, same)

  -- One round is spent if the buffer is full at first; from then on each round puts a character.
  xsputn_rounds :
      (fuel rounds : ℕ) (bs : List ℕ) (s : Sock os.World)
      → IsWriter s
      → s.rep.pend < fuel
      → length bs + 1 < rounds + min 1 (room s)
      → Puts bs s (xsputn os fuel rounds bs s)
  xsputn_rounds fuel zero bs s w f h = absurd (omega arith)
  xsputn_rounds fuel (suc rounds) bs s w f h = elim (Bool-cases (leb (length bs) (room s))) [
    | inl b ↦ xsputn_fits fuel rounds bs s w b
    | inr b ↦
        let (h0, v0, same0) =
          put_chars-Puts s (take (room s) bs) w (omega (arith, length-take (room s) bs)) in
        let w0 = IsWriter-same s _ w same0 v0 in
        after_sync-Puts fuel rounds bs s _ w b refl
          (sync-Synced os fd out fuel (put_chars (take (room s) bs) s) w0.valid w0.at
            (omega (arith, ap (λ r. r.pend) same0.rep)))
          (λ u wu same e.
            let l : room s < length bs = ground arith in
            xsputn_rounds fuel rounds (drop (room s) bs) u wu
              (omega (arith, ap (λ r. r.pend) same.rep))
              (omega (arith, length-drop (room s) bs, e, wu.roomy)))
  ]

  -- `xsputn` on an object that may write, with fuel above the buffer's size and more than one
  -- round beyond the length of the text, always ends. If it returns, it returns the length, and
  -- what the system has accepted followed by what the buffer holds has grown by exactly the
  -- text. If it throws, an `err`, it has grown by a proper front part of the text. The put area
  -- stays valid, and the input side is untouched.
  pub xsputn-Puts :
      (fuel rounds : ℕ) (bs : List ℕ) (s : Sock os.World)
      → IsWriter s
      → s.rep.pend < fuel
      → length bs + 1 < rounds
      → Puts bs s (xsputn os fuel rounds bs s)
  xsputn-Puts fuel rounds bs s w f h = xsputn_rounds fuel rounds bs s w f (omega arith)
