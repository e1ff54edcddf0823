-- ===== src/Sockbuf/Manipulators.antt =====
-- The manipulators `crlf` and `lfcr` (socket++/sockstream.cpp), on an `ostream` whose buffer is a
-- `sockbuf`. What the stream buffer throws, `operator <<` turns into `badbit`.
use cpr.Common.{
  ℕ, ◌+◌, ◌<◌, ◌≡◌, refl, sym, ap, ◌∙◌, List, [], ◌∷◌, ◌++◌, append-nil, Bool, true, false, not,
  ◌==◌, Action, Result, ok, thrown, running, err, written, sockoob, ◌>>◌, follow, if◌then◌else◌,
  length, take, arith, take_all,
}
use cpr.Os.{Os}
use cpr.Os.Laws.{Output}
use cpr.Sockbuf.State.{Sock}
use cpr.Sockbuf.Buffer.{xsputn, sync}
use cpr.Sockbuf.Output.Flush.{history, Synced, sync-Synced}
use cpr.Sockbuf.Output.Put.{IsWriter, Puts, xsputn-Puts}

-- An `ostream`: its buffer and `badbit`.
pub record Ostream (W : Type 0) : Type 0 where
  pub buf : Sock W
  pub bad : Bool

module _ (os : Os) (fuel : ℕ) where
  abbrev pub inserted : List ℕ → Result ℕ × Sock os.World → Result (Unit {0}) × Ostream os.World
  inserted bs (ok n, s) = (ok tt, record { buf = s; bad = not (n == length bs) })
  inserted bs (thrown e, s) = (ok tt, record { buf = s; bad = true })
  inserted bs (running, s) = (running, record { buf = s; bad = false })

  -- `o << text`: a stream that is not good does nothing.
  unfoldable pub insert : List ℕ → Action (Ostream os.World) (Unit {0})
  insert bs o = if o.bad then (ok tt, o) else inserted bs (xsputn os fuel (length bs + 2) bs o.buf)

  abbrev pub synced : Bool → Result ℕ × Sock os.World → Result ℕ × Ostream os.World
  synced bad (r, s) = (r, record { buf = s; bad = bad })

  -- `o.rdbuf ()->pubsync ()`
  unfoldable pub flush_buffer : Action (Ostream os.World) ℕ
  flush_buffer o = synced o.bad (sync os fuel o.buf)

  unfoldable pub crlf : Action (Ostream os.World) ℕ
  crlf = insert (13 ∷ 10 ∷ []) >> flush_buffer

  unfoldable pub lfcr : Action (Ostream os.World) ℕ
  lfcr = insert (10 ∷ 13 ∷ []) >> flush_buffer

module _ (os : Os) (fd : ℕ) (out : Output os fd) where
  -- All that was written up to then, with a front part of `bs`, or all of it if no error has come.
  abbrev pub Front : Bool → List ℕ → ℕ → Type 0
  Front false bs k = k ≡ length bs
  Front true bs k = k < length bs

  abbrev pub EndsLine : List ℕ → Sock os.World → Result ℕ × Ostream os.World → Type 0
  EndsLine bs s (ok n, o) =
      (k : ℕ) × Front o.bad bs k × (out.accepted o.buf.world fd ≡ history os fd out s ++ take k bs)
  EndsLine bs s (thrown (err e), o) =
      (k : ℕ) × Front o.bad bs k × (history os fd out o.buf ≡ history os fd out s ++ take k bs)
  EndsLine bs s (thrown (written n), o) = ⊥
  EndsLine bs s (thrown sockoob, o) = ⊥
  EndsLine bs s (running, o) = ⊥

  -- The flush behind a text of which `k` characters were put.
  flushed-EndsLine :
      (fuel : ℕ) (bs : List ℕ) (s t : Sock os.World) (bad : Bool) (k : ℕ)
      (r : Result ℕ × Sock os.World)
      → history os fd out t ≡ history os fd out s ++ take k bs
      → Front bad bs k
      → Synced os fd out t r
      → EndsLine bs s (synced os fuel bad r)
  flushed-EndsLine fuel bs s t bad k (ok n, u) h f (z, e, h', v, same) =
      (k, f, sym (append-nil _) ∙ ap (λ xs. out.accepted u.world fd ++ xs) (sym e) ∙ h' ∙ h)
  flushed-EndsLine fuel bs s t bad k (thrown (err x), u) h f (h', v, same) = (k, f, h' ∙ h)
  flushed-EndsLine fuel bs s t bad k (thrown (written n), u) h f q = q
  flushed-EndsLine fuel bs s t bad k (thrown sockoob, u) h f q = q
  flushed-EndsLine fuel bs s t bad k (running, u) h f q = q

  inserted-EndsLine :
      (fuel : ℕ) (bs : List ℕ) (s : Sock os.World) (r : Result ℕ × Sock os.World)
      → IsWriter os fd out s
      → s.rep.pend < fuel
      → Puts os fd out bs s r
      → EndsLine bs s (follow (λ _. flush_buffer os fuel) (inserted os fuel bs r))
  unfolding flush_buffer
  inserted-EndsLine fuel bs s (ok n, t) w f (e, h, v, same) =
      let full : (n == length bs) ≡ true = ground (arith, e) in
      rw full (
        flushed-EndsLine fuel bs s t false (length bs) (sync os fuel t)
          (h ∙ ap (λ xs. history os fd out s ++ xs) (sym (take_all (length bs) bs (omega arith))))
          refl
          (sync-Synced os fd out fuel t v (ap (λ r. r.sock) same.rep ∙ w.at)
            (omega (arith, ap (λ r. r.pend) same.rep))))
  inserted-EndsLine fuel bs s (thrown (err x), t) w f (k, l, h, v, same) =
      flushed-EndsLine fuel bs s t true k (sync os fuel t) h l (
        sync-Synced os fd out fuel t v (ap (λ r. r.sock) same.rep ∙ w.at)
          (omega (arith, ap (λ r. r.pend) same.rep)))
  inserted-EndsLine fuel bs s (thrown (written n), t) w f q = absurd q
  inserted-EndsLine fuel bs s (thrown sockoob, t) w f q = absurd q
  inserted-EndsLine fuel bs s (running, t) w f q = absurd q

  end_line :
      (fuel : ℕ) (bs : List ℕ) (s : Sock os.World)
      → IsWriter os fd out s
      → s.rep.pend < fuel
      → EndsLine bs s
          ((insert os fuel bs >> flush_buffer os fuel) (record { buf = s; bad = false }))
  unfolding insert
  end_line fuel bs s w f =
      inserted-EndsLine fuel bs s (xsputn os fuel (length bs + 2) bs s) w f
        (xsputn-Puts os fd out fuel (length bs + 2) bs s w f (omega arith))

  -- `crlf` and `lfcr`, on a good stream whose buffer may write and with fuel above the buffer's
  -- size, always end. If they return, the system has accepted all that was written before and
  -- the two characters, or, if `badbit` is set, a proper front part of the two. If they throw,
  -- an `err`, this much is accepted or still in the buffer.
  pub crlf-EndsLine :
      (fuel : ℕ) (s : Sock os.World)
      → IsWriter os fd out s
      → s.rep.pend < fuel
      → EndsLine (13 ∷ 10 ∷ []) s (crlf os fuel (record { buf = s; bad = false }))
        × EndsLine (10 ∷ 13 ∷ []) s (lfcr os fuel (record { buf = s; bad = false }))
  unfolding crlf lfcr
  crlf-EndsLine fuel s w f =
      (end_line fuel (13 ∷ 10 ∷ []) s w f, end_line fuel (10 ∷ 13 ∷ []) s w f)
