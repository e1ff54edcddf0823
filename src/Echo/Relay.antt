-- ===== src/Echo/Relay.antt =====
-- The loop of the echo server (socket++/echo.cpp): every byte that comes in goes out, in order.
use cpr.Common.{
  true, false, drop, take-append-drop, ℕ, zero, suc, ◌-◌, ◌<◌, ◌≡◌, refl, sym, ap, ◌∙◌, List, [],
  ◌∷◌, ◌++◌, ◌==◌, Result, ok, thrown, running, err, sockoob, written, follow, take, length, arith,
  append_assoc, append-nil, take_all, length-append, ◌>>◌, pure, Action,
}
use cpr.Os.{Os}
use cpr.Os.Laws.{Duplex}
use cpr.Sockbuf.State.{Sock}
use cpr.Sockbuf.Io.{read, write}
use cpr.Sockbuf.Unmoved.Directions.{read-accepted, write-pending}
use cpr.Sockbuf.Output.Transfer.{SameObject, SameObject-trans}
use cpr.Sockbuf.Output.Wait.{Writes, write-Writes}
use cpr.Sockbuf.Input.Wait.{Reads, read-Reads}
use cpr.Echo.{relay, write_back}

module _ (os : Os) (fd : ℕ) (duplex : Duplex os fd) where
  abbrev pub accepted : Sock os.World → List ℕ
  accepted s = duplex.output.accepted s.world fd

  abbrev pub pending : Sock os.World → List ℕ
  pending s = duplex.input.pending s.world fd

  -- A front part of `xs` was sent, and the buffers of the object are as they were.
  abbrev pub SentFront : List ℕ → Sock os.World → Sock os.World → Type 0
  SentFront xs s t =
      (ys : List ℕ) × (zs : List ℕ) × (xs ≡ ys ++ zs)
      × (accepted t ≡ accepted s ++ ys)
      × SameObject s t

  -- What is sent back of the bytes `xs`.
  abbrev pub Returns : List ℕ → Sock os.World → Result (Unit {0}) × Sock os.World → Type 0
  Returns xs s (ok _, t) =
      (accepted t ≡ accepted s ++ xs) × (pending t ≡ pending s) × SameObject s t
  Returns xs s (thrown e, t) = SentFront xs s t
  Returns xs s (running, t) = ⊥

  after_write-Returns :
      (fuel : ℕ) (xs : List ℕ) (s : Sock os.World) (r : Result ℕ × Sock os.World)
      → Writes os fd duplex.output xs s r
      → pending r.1 ≡ pending s
      → Returns xs s (follow (λ n. write_back os fuel 1 xs (length xs - n)) r)
  unfolding write_back
  after_write-Returns fuel xs s (ok n, t) (e, a, same) p =
      let done : (length xs - n == 0) ≡ true = ground (arith, e) in rw done (a, p, same)
  after_write-Returns fuel xs s (thrown (written k), t) (l, a, same) p =
      (take k xs, drop k xs, sym (take-append-drop k xs), a, same)
  after_write-Returns fuel xs s (thrown (err x), t) (a, same) p =
      ([], xs, refl, a ∙ sym (append-nil (accepted s)), same)
  after_write-Returns fuel xs s (thrown sockoob, t) w p = absurd w
  after_write-Returns fuel xs s (running, t) w p = absurd w

  write_back-Returns :
      (fuel c : ℕ) (cs : List ℕ) (s : Sock os.World)
      → s.rep.sock ≡ fd
      → length (c ∷ cs) < fuel
      → Returns (c ∷ cs) s (write_back os fuel 2 (c ∷ cs) (length (c ∷ cs)) s)
  unfolding write_back
  write_back-Returns fuel c cs s at l =
      let some_left : (length (c ∷ cs) == 0) ≡ false = ground arith in
      let all : take (length (c ∷ cs)) (c ∷ cs) ≡ c ∷ cs =
        take_all (length (c ∷ cs)) (c ∷ cs) (omega arith) in
      rw (some_left, all)
        (after_write-Returns fuel (c ∷ cs) s (write os fuel (c ∷ cs) s)
          (write-Writes os fd duplex.output fuel (c ∷ cs) s at l)
          (write-pending os fd duplex fuel (c ∷ cs) s))

  -- How the loop ends.
  abbrev pub Echoes : Sock os.World → Result (Unit {0}) × Sock os.World → Type 0
  Echoes s (ok _, t) = (accepted t ≡ accepted s ++ pending s) × (pending t ≡ [])
  Echoes s (thrown e, t) = SentFront (pending s) s t
  Echoes s (running, t) = ⊥

  Echoes-after :
      (xs : List ℕ) (s t : Sock os.World) (r : Result (Unit {0}) × Sock os.World)
      → accepted t ≡ accepted s ++ xs
      → pending s ≡ xs ++ pending t
      → SameObject s t
      → Echoes t r
      → Echoes s r
  Echoes-after xs s t (ok _, u) a p o (e, none_left) = (
    e
        ∙ ap (λ zs. zs ++ pending t) a
        ∙ append_assoc (accepted s) xs (pending t)
        ∙ ap (λ zs. accepted s ++ zs) (sym p),
    none_left,
  )
  Echoes-after xs s t (thrown e, u) a p o (ys, zs, split, sent, o') = (
    xs ++ ys,
    zs,
    p ∙ ap (λ ws. xs ++ ws) split ∙ sym (append_assoc xs ys zs),
    sent ∙ ap (λ ws. ws ++ ys) a ∙ append_assoc (accepted s) xs ys,
    SameObject-trans o o',
  )
  Echoes-after xs s t (running, u) a p o n = n

  returned-Echoes :
      (xs : List ℕ) (s t : Sock os.World)
      (again : Sock os.World → Result (Unit {0}) × Sock os.World)
      (r : Result (Unit {0}) × Sock os.World)
      → accepted t ≡ accepted s
      → pending s ≡ xs ++ pending t
      → t.rep.sock ≡ fd
      → SameObject s t
      → Returns xs t r
      → ((u : Sock os.World) → u.rep.sock ≡ fd → pending u ≡ pending t → Echoes u (again u))
      → Echoes s (follow (λ _. again) r)
  returned-Echoes xs s t again (ok _, u) a p at o (e, same, o') k =
      Echoes-after xs s u (again u) (e ∙ ap (λ zs. zs ++ xs) a) (p ∙ ap (λ zs. xs ++ zs) (sym same))
        (SameObject-trans o o') (k u (ap (λ q. q.sock) o'.rep ∙ at) same)
  returned-Echoes xs s t again (thrown e, u) a p at o (ys, zs, split, sent, o') k = (
    ys,
    zs ++ pending t,
    p ∙ ap (λ ws. ws ++ pending t) split ∙ append_assoc ys zs (pending t),
    sent ∙ ap (λ ws. ws ++ ys) a,
    SameObject-trans o o',
  )
  returned-Echoes xs s t again (running, u) a p at o n k = absurd n

  after_read-Echoes :
      (fuel rounds : ℕ) (s : Sock os.World) (r : Result (List ℕ) × Sock os.World)
      → s.rep.sock ≡ fd
      → 1024 < fuel
      → Reads os fd duplex.input 1024 s r
      → accepted r.1 ≡ accepted s
      → ((u : Sock os.World)
          → u.rep.sock ≡ fd
          → length (pending u) < length (pending s)
          → Echoes u (relay os fuel rounds u))
      → Echoes s (
          follow
            (λ buf. elim buf as (λ _. Action (Sock os.World) (Unit {0})) [
              | [] ↦ pure tt
              | c ∷ cs ↦ write_back os fuel 2 (c ∷ cs) (length (c ∷ cs)) >> relay os fuel rounds
            ])
            r)
  after_read-Echoes fuel rounds s (ok [], t) at f (l, p, z, same) a k =
      let ended : pending s ≡ [] = z (omega arith) refl in
      (a ∙ sym (append-nil (accepted s)) ∙ ap (λ zs. accepted s ++ zs) (sym ended), sym p ∙ ended)
  after_read-Echoes fuel rounds s (ok (c ∷ cs), t) at f (l, p, z, same) a k =
      let at' : t.rep.sock ≡ fd = ap (λ q. q.sock) same.rep ∙ at in
      returned-Echoes (c ∷ cs) s t (relay os fuel rounds) _ a p at' same
        (write_back-Returns fuel c cs t at' (omega arith))
        (λ u au same'.
          k u au (omega (arith, ap length p, ap length same', length-append (c ∷ cs) (pending t))))
  after_read-Echoes fuel rounds s (thrown (err x), t) at f (p, same) a k =
      ([], pending s, refl, a ∙ sym (append-nil (accepted s)), same)
  after_read-Echoes fuel rounds s (thrown sockoob, t) at f (p, same) a k =
      ([], pending s, refl, a ∙ sym (append-nil (accepted s)), same)
  after_read-Echoes fuel rounds s (thrown (written n), t) at f q a k = absurd q
  after_read-Echoes fuel rounds s (running, t) at f q a k = absurd q

  -- On a connection whose two directions do not disturb each other, with fuel above 1024 for
  -- `write` and more rounds than bytes that come in, the loop of the echo server always ends.
  -- If it returns, the system has accepted all bytes that came in, in order, and none are left.
  -- If it throws, it has accepted a front part of them, and the object's own buffers are as
  -- before.
  pub relay-Echoes :
      (fuel rounds : ℕ) (s : Sock os.World)
      → s.rep.sock ≡ fd
      → 1024 < fuel
      → length (pending s) < rounds
      → Echoes s (relay os fuel rounds s)
  unfolding relay
  relay-Echoes fuel zero s at f h = absurd (omega arith)
  relay-Echoes fuel (suc rounds) s at f h =
      after_read-Echoes fuel rounds s (read os 1024 s) at f
        (read-Reads os fd duplex.input 1024 s at) (read-accepted os fd duplex 1024 s)
        (λ u au l. relay-Echoes fuel rounds u au f (omega arith))
