-- ===== src/Sockbuf/Output/Append.antt =====
-- A run of calls that put characters, as `send_cmd` and `send_buf` make: each appends its own part to
-- the history, and the first error ends the run.
use cpr.Common.{
  ℕ, ◌≤◌, ◌<◌, ◌+◌, ◌%◌, ◌≡◌, refl, sym, ap, ◌∙◌, List, [], ◌∷◌, ◌++◌, append_assoc, append-nil,
  arith, Result, ok, thrown, running, written, err, sockoob, take, length, Option, Action, follow,
  length-append, take-append_left, take-append_rest,
}
use cpr.Os.{Os}
use cpr.Os.Laws.{Output}
use cpr.Sockbuf.State.{Sock}
use cpr.Sockbuf.Buffer.{sync, sputc, xsputn}
use cpr.Sockbuf.Output.Area.{PutValid}
use cpr.Sockbuf.Output.Flush.{SameInput, history, Synced, sync-Synced}
use cpr.Sockbuf.Output.Put.{IsWriter, IsWriter-same, SameInput-trans, Puts, xsputn-Puts}
use cpr.Sockbuf.Output.Char.{PutsChar, sputc-PutsChar}

module _ (os : Os) (fd : ℕ) (out : Output os fd) where
  -- The call appends `xs` to the history, or throws an `err` after a front part of `xs`.
  abbrev pub Appends : {A : Type 0} → List ℕ → Sock os.World → Result A × Sock os.World → Type 0
  Appends xs s (ok _, t) =
      (history os fd out t ≡ history os fd out s ++ xs) × PutValid t.rep.pend t.put × SameInput s t
  Appends xs s (thrown (err e), t) =
      (k : ℕ) × (k ≤ length xs)
      × (history os fd out t ≡ history os fd out s ++ take k xs)
      × PutValid t.rep.pend t.put
      × SameInput s t
  Appends xs s (thrown (written n), t) = ⊥
  Appends xs s (thrown sockoob, t) = ⊥
  Appends xs s (running, t) = ⊥

  pub join-Appends :
      {B : Type 0} (xs ys : List ℕ) (s t : Sock os.World) (r : Result B × Sock os.World)
      → history os fd out t ≡ history os fd out s ++ xs
      → SameInput s t
      → Appends ys t r
      → Appends (xs ++ ys) s r
  join-Appends xs ys s t (ok a, u) e same (h, v, same') = (
    h ∙ ap (λ zs. zs ++ ys) e ∙ append_assoc (history os fd out s) xs ys,
    v,
    SameInput-trans os fd out same same',
  )
  join-Appends xs ys s t (thrown (err x), u) e same (k, l, h, v, same') = (
    length xs + k,
    omega (arith, length-append xs ys),
    h
        ∙ ap (λ zs. zs ++ take k ys) e
        ∙ append_assoc (history os fd out s) xs (take k ys)
        ∙ ap (λ zs. history os fd out s ++ zs) (sym (take-append_rest xs ys k)),
    v,
    SameInput-trans os fd out same same',
  )
  join-Appends xs ys s t (thrown (written n), u) e same p = p
  join-Appends xs ys s t (thrown sockoob, u) e same p = p
  join-Appends xs ys s t (running, u) e same p = p

  -- The parts of a block append one after the other.
  pub Appends-follow :
      {A B : Type 0} (xs ys : List ℕ) (s : Sock os.World) (r : Result A × Sock os.World)
      (f : A → Action (Sock os.World) B)
      → IsWriter os fd out s
      → Appends xs s r
      → ((a : A) (t : Sock os.World) → IsWriter os fd out t → SameInput s t → Appends ys t (f a t))
      → Appends (xs ++ ys) s (follow f r)
  Appends-follow xs ys s (ok a, t) f w (h, v, same) k =
      join-Appends xs ys s t (f a t) h same (k a t (IsWriter-same os fd out s t w same v) same)
  Appends-follow xs ys s (thrown (err e), t) f w (k, l, h, v, same) q = (
    k,
    omega (arith, length-append xs ys),
    h ∙ ap (λ zs. history os fd out s ++ zs) (sym (take-append_left k xs ys l)),
    v,
    same,
  )
  Appends-follow xs ys s (thrown (written n), t) f w p k = absurd p
  Appends-follow xs ys s (thrown sockoob, t) f w p k = absurd p
  Appends-follow xs ys s (running, t) f w p k = absurd p

  pub Appends-none :
      {A : Type 0} (a : A) (s : Sock os.World) → IsWriter os fd out s → Appends [] s (ok a, s)
  Appends-none a s w = (
    sym (append-nil (history os fd out s)),
    w.valid,
    record { rep = refl; get = refl; sockname = refl; opened = refl },
  )

  of_Puts :
      (xs : List ℕ) (s : Sock os.World) (r : Result ℕ × Sock os.World)
      → Puts os fd out xs s r
      → Appends xs s r
  of_Puts xs s (ok n, t) (e, h, v, same) = (h, v, same)
  of_Puts xs s (thrown (err e), t) (k, l, h, v, same) = (k, omega arith, h, v, same)
  of_Puts xs s (thrown (written n), t) p = p
  of_Puts xs s (thrown sockoob, t) p = p
  of_Puts xs s (running, t) p = p

  pub xsputn-Appends :
      (fuel rounds : ℕ) (bs : List ℕ) (s : Sock os.World)
      → IsWriter os fd out s
      → s.rep.pend < fuel
      → length bs + 1 < rounds
      → Appends bs s (xsputn os fuel rounds bs s)
  xsputn-Appends fuel rounds bs s w f h =
      of_Puts bs s _ (xsputn-Puts os fd out fuel rounds bs s w f h)

  of_PutsChar :
      (c r : ℕ) (s : Sock os.World) (v : Result (Option ℕ) × Sock os.World)
      → PutsChar os fd out c r s v
      → Appends (c ∷ []) s v
  of_PutsChar c r s (ok n, t) (e, h, v, same) = (h, v, same)
  of_PutsChar c r s (thrown (err e), t) (h, v, same) =
      (0, omega arith, h ∙ sym (append-nil (history os fd out s)), v, same)
  of_PutsChar c r s (thrown (written n), t) p = p
  of_PutsChar c r s (thrown sockoob, t) p = p
  of_PutsChar c r s (running, t) p = p

  pub sputc-Appends :
      (fuel c : ℕ) (s : Sock os.World)
      → IsWriter os fd out s
      → s.rep.pend < fuel
      → Appends (c % 256 ∷ []) s (sputc os fuel c s)
  sputc-Appends fuel c s w f =
      of_PutsChar (c % 256) (c % 256) s _ (sputc-PutsChar os fd out fuel c s w f)

  of_Synced :
      (s : Sock os.World) (r : Result ℕ × Sock os.World) → Synced os fd out s r → Appends [] s r
  of_Synced s (ok n, t) (z, e, h, v, same) = (h ∙ sym (append-nil (history os fd out s)), v, same)
  of_Synced s (thrown (err e), t) (h, v, same) =
      (0, omega arith, h ∙ sym (append-nil (history os fd out s)), v, same)
  of_Synced s (thrown (written n), t) p = p
  of_Synced s (thrown sockoob, t) p = p
  of_Synced s (running, t) p = p

  pub sync-Appends :
      (fuel : ℕ) (s : Sock os.World)
      → IsWriter os fd out s
      → s.rep.pend < fuel
      → Appends [] s (sync os fuel s)
  sync-Appends fuel s w f = of_Synced s _ (sync-Synced os fd out fuel s w.valid w.at f)
