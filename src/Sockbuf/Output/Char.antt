-- ===== src/Sockbuf/Output/Char.antt =====
-- `overflow` and `sputc` (socket++/sockstream.cpp): one character.
use cpr.Common.{
  ℕ, ◌≤◌, ◌<◌, ◌-◌, ◌%◌, ◌≡◌, refl, sym, ap, ◌∙◌, subst, [], ◌∷◌, ◌++◌, arith, Result, ok, thrown,
  running, written, err, sockoob, true, false, Bool-cases, inl, inr, Option, none, some, ltb, ◌==◌,
  ltb→lt,
}
use cpr.Os.{Os}
use cpr.Os.Laws.{Output}
use cpr.Sockbuf.State.{Sock, PutArea}
use cpr.Sockbuf.Buffer.{sync, overflow, overflow_on, sputc, room, room_of}
use cpr.Sockbuf.Output.Area.{PutValid, is_open}
use cpr.Sockbuf.Output.Flush.{SameInput, history, Synced, sync-Synced}
use cpr.Sockbuf.Output.Put.{
  IsWriter, IsWriter-same, SameInput-trans, put_chars-Puts, room_when_empty,
}

module _ (os : Os) (fd : ℕ) (out : Output os fd) where
  -- The call returns `r` and has put `c`, or has thrown and put nothing.
  abbrev pub PutsChar : ℕ → ℕ → Sock os.World → Result (Option ℕ) × Sock os.World → Type 0
  PutsChar c r s (ok r', t) =
      (r' ≡ some r)
      × (history os fd out t ≡ history os fd out s ++ c ∷ [])
      × PutValid t.rep.pend t.put
      × SameInput s t
  PutsChar c r s (thrown (err e), t) =
      (history os fd out t ≡ history os fd out s) × PutValid t.rep.pend t.put × SameInput s t
  PutsChar c r s (thrown (written n), t) = ⊥
  PutsChar c r s (thrown sockoob, t) = ⊥
  PutsChar c r s (running, t) = ⊥

  after_sync-PutsChar :
      (fuel x : ℕ) (s : Sock os.World) (p : PutArea) (r : Result ℕ × Sock os.World)
      → IsWriter os fd out s
      → (p.pptr == p.epptr) ≡ true
      → sync os fuel s ≡ r
      → Synced os fd out s r
      → PutsChar (x % 256) x s (overflow_on os fuel (some p) (some x) s)
  unfolding overflow_on
  after_sync-PutsChar fuel x s p (ok n, u) w b e (z, empty, h, v, same) =
      let wu = IsWriter-same os fd out s u w same v in
      let full : room u ≡ u.rep.pend = room_when_empty os fd out u wu empty in
      let (h', v', same') =
        put_chars-Puts os fd out u (x % 256 ∷ []) wu (omega (arith, full, wu.roomy)) in
      rw (b, e)
        (refl, h' ∙ ap (λ ys. ys ++ x % 256 ∷ []) h, v', SameInput-trans os fd out same same')
  after_sync-PutsChar fuel x s p (thrown (err y), u) w b e q = rw (b, e) q
  after_sync-PutsChar fuel x s p (thrown (written k), u) w b e q = absurd q
  after_sync-PutsChar fuel x s p (thrown sockoob, u) w b e q = absurd q
  after_sync-PutsChar fuel x s p (running, u) w b e q = absurd q

  overflow_on-PutsChar :
      (fuel x : ℕ) (s : Sock os.World) (o : Option PutArea)
      → s.put ≡ o
      → IsWriter os fd out s
      → s.rep.pend < fuel
      → PutsChar (x % 256) x s (overflow_on os fuel o (some x) s)
  unfolding overflow_on room
  overflow_on-PutsChar fuel x s none e w f =
      let no : false ≡ true = ap is_open (sym e) ∙ w.opened in cc
  overflow_on-PutsChar fuel x s (some p) e w f = elim (Bool-cases (p.pptr == p.epptr)) [
    | inl b ↦
        after_sync-PutsChar fuel x s p _ w b refl (sync-Synced os fd out fuel s w.valid w.at f)
    | inr b ↦
        let v : PutValid s.rep.pend (some p) = subst (PutValid s.rep.pend) e w.valid in
        let r : room s ≡ p.epptr - p.pptr = ap room_of e in
        let l : 1 ≤ room s = ground arith in
        let (h', v', same') = put_chars-Puts os fd out s (x % 256 ∷ []) w l in
        rw b (refl, h', v', same')
  ]

  -- `overflow (x)` on an object that may write, with fuel above the buffer's size, always ends.
  -- If it returns, it returns `x` and the last byte of `x` is put behind all that was written
  -- before. If it throws, an `err`, nothing was put and nothing lost.
  pub overflow-PutsChar :
      (fuel x : ℕ) (s : Sock os.World)
      → IsWriter os fd out s
      → s.rep.pend < fuel
      → PutsChar (x % 256) x s (overflow os fuel (some x) s)
  unfolding overflow
  overflow-PutsChar fuel x s w f = overflow_on-PutsChar fuel x s s.put refl w f

  pub sputc-PutsChar :
      (fuel c : ℕ) (s : Sock os.World)
      → IsWriter os fd out s
      → s.rep.pend < fuel
      → PutsChar (c % 256) (c % 256) s (sputc os fuel c s)
  unfolding sputc
  sputc-PutsChar fuel c s w f = elim (Bool-cases (ltb 0 (room s))) [
    | inl b ↦
        let (h, v, same) = put_chars-Puts os fd out s (c % 256 ∷ []) w (ltb→lt 0 (room s) b) in
        rw b (refl, h, v, same)
    | inr b ↦ rw b (
        subst (λ d. PutsChar d (c % 256) s (overflow os fuel (some (c % 256)) s)) (omega arith)
          (overflow-PutsChar fuel (c % 256) s w f))
  ]
