-- ===== src/Sockbuf/Output/Flush.antt =====
-- `sync` and `overflow` (socket++/sockstream.cpp).
use mathlib.Core.Path.{ap₂, ◌≡⟨◌⟩◌, ◌∎}
use cpr.Common.{
  subst, ℕ, zero, suc, ◌<◌, ◌≡◌, refl, sym, ap, ◌∙◌, List, [], ◌++◌, arith, Result, ok, thrown,
  running, written, err, sockoob, take, drop, Bool-cases, inl, inr, Option, none, some,
  append_assoc, append-nil, take-append-drop, ltb, leb, ◌&&◌, length-take,
}
use cpr.Os.{Os}
use cpr.Os.Laws.{Output}
use cpr.Sockbuf.State.{Sock, PutArea}
use cpr.Sockbuf.Buffer.{sync, sync_on, after_write, partial_write, reposition}
use cpr.Sockbuf.Output.Transfer.{SameObject}
use cpr.Sockbuf.Output.Area.{
  IsPut, PutValid, unflushed, is_open, reposition-IsPut, unflushed-reposition,
}
use cpr.Sockbuf.Output.Wait.{Writes, write-Writes}

-- All but the put area, errno and the system is as it was.
pub record SameInput {W : Type 0} (s t : Sock W) : Type 0 where
  pub rep : t.rep ≡ s.rep
  pub get : t.get ≡ s.get
  pub sockname : t.sockname ≡ s.sockname
  pub opened : is_open t.put ≡ is_open s.put

-- Fuel above the buffer's size stays so.
pub still :
    {W : Type 0} {fuel : ℕ} {s t : Sock W} → s.rep.pend < fuel → SameInput s t → t.rep.pend < fuel
still f same = omega (arith, ap (λ r. r.pend) same.rep)

module _ (os : Os) (fd : ℕ) (out : Output os fd) where
  -- All that the program has written: accepted by the system, or still in the buffer.
  abbrev pub history : Sock os.World → List ℕ
  history s = out.accepted s.world fd ++ unflushed s.put

  -- A `sync` ends, and keeps every character. If it returns, the buffer is empty.
  abbrev pub Synced : Sock os.World → Result ℕ × Sock os.World → Type 0
  Synced s (ok n, t) =
      (n ≡ 0)
      × (unflushed t.put ≡ [])
      × (history t ≡ history s)
      × PutValid t.rep.pend t.put
      × SameInput s t
  Synced s (thrown (err e), t) = (history t ≡ history s) × PutValid t.rep.pend t.put × SameInput s t
  Synced s (thrown (written k), t) = ⊥
  Synced s (thrown sockoob, t) = ⊥
  Synced s (running, t) = ⊥

  same_history :
      (s t : Sock os.World)
      → out.accepted t.world fd ≡ out.accepted s.world fd
      → SameObject s t
      → PutValid s.rep.pend s.put
      → (history t ≡ history s) × PutValid t.rep.pend t.put × SameInput s t
  same_history s t a same v = (
    ap₂ (λ xs o. xs ++ unflushed o) a same.put,
    subst (λ n. PutValid n t.put) (sym (ap (λ r. r.pend) same.rep))
        (subst (PutValid s.rep.pend) (sym same.put) v),
    record {
      rep = same.rep;
      get = same.get;
      sockname = same.sockname;
      opened = ap is_open same.put;
    },
  )

  after_write-Synced :
      (s : Sock os.World) (p : PutArea) (r : Result ℕ × Sock os.World)
      → s.put ≡ some p
      → IsPut s.rep.pend p
      → Writes os fd out (take p.pptr p.pmem) s r
      → Synced s (after_write p r)
  unfolding after_write partial_write
  after_write-Synced s p (ok n, t) e v (l, a, same) =
      let v' : IsPut t.rep.pend p = subst (λ n. IsPut n p) (sym (ap (λ r. r.pend) same.rep)) v in
      (
        refl,
        refl,
        append-nil _ ∙ a ∙ sym (ap (λ o. out.accepted s.world fd ++ unflushed o) e),
        record { sized = v'.sized; ends = refl; within = omega arith },
        record {
          rep = same.rep;
          get = same.get;
          sockname = same.sockname;
          opened = ap is_open (sym e);
        },
      )
  after_write-Synced s p (thrown (written zero), t) e v (l, a, same) =
      same_history s t (a ∙ append-nil _) same (subst (PutValid s.rep.pend) (sym e) v)
  after_write-Synced s p (thrown (written (suc k)), t) e v (l, a, same) =
      let v' : IsPut t.rep.pend p = subst (λ n. IsPut n p) (sym (ap (λ r. r.pend) same.rep)) v in
      let xs = take p.pptr p.pmem in
      (
        out.accepted t.world fd ++ unflushed (some (reposition t.rep.pend (suc k) p))
            ≡⟨ ap₂ ◌++◌ a (
                unflushed-reposition t.rep.pend (suc k) p v'
                  (omega (arith, length-take p.pptr p.pmem))) ⟩
              (out.accepted s.world fd ++ take (suc k) xs) ++ drop (suc k) xs
            ≡⟨ append_assoc (out.accepted s.world fd) (take (suc k) xs) (drop (suc k) xs) ⟩
              out.accepted s.world fd ++ (take (suc k) xs ++ drop (suc k) xs)
            ≡⟨ ap (λ ys. out.accepted s.world fd ++ ys) (take-append-drop (suc k) xs) ⟩
              out.accepted s.world fd ++ xs
            ≡⟨ sym (ap (λ o. out.accepted s.world fd ++ unflushed o) e) ⟩ history s ∎,
        reposition-IsPut t.rep.pend (suc k) p v',
        record {
          rep = same.rep;
          get = same.get;
          sockname = same.sockname;
          opened = ap is_open (sym e);
        },
      )
  after_write-Synced s p (thrown (err x), t) e v (a, same) =
      same_history s t a same (subst (PutValid s.rep.pend) (sym e) v)
  after_write-Synced s p (thrown sockoob, t) e v h = absurd h
  after_write-Synced s p (running, t) e v h = absurd h

  sync_on-Synced :
      (fuel : ℕ) (s : Sock os.World) (o : Option PutArea)
      → s.put ≡ o
      → PutValid s.rep.pend o
      → s.rep.sock ≡ fd
      → s.rep.pend < fuel
      → Synced s (sync_on os fuel o s)
  unfolding sync_on
  sync_on-Synced fuel s none e v at h = (
    refl,
    ap unflushed e,
    refl,
    subst (PutValid s.rep.pend) (sym e) v,
    record { rep = refl; get = refl; sockname = refl; opened = refl },
  )
  sync_on-Synced fuel s (some p) e v at h = elim (Bool-cases (ltb 0 p.pptr && leb p.pptr p.epptr)) [
    | inl b ↦ rw b (
        after_write-Synced s p _ e v (
          write-Writes os fd out fuel (take p.pptr p.pmem) s at
            (omega (arith, length-take p.pptr p.pmem))))
    | inr b ↦
        let z : p.pptr ≡ 0 = ground arith in
        rw b (
          refl,
          ap unflushed e ∙ ap (λ n. take n p.pmem) z,
          refl,
          subst (PutValid s.rep.pend) (sym e) v,
          record { rep = refl; get = refl; sockname = refl; opened = refl },
        )
  ]

  -- `sync` on a valid put area, with fuel above the buffer's size, always ends and loses no
  -- character: what the system has accepted followed by what the buffer holds is the same as
  -- before, also where a short write makes it throw an `err`. If it returns, it returns 0 and
  -- the buffer is empty.
  pub sync-Synced :
      (fuel : ℕ) (s : Sock os.World)
      → PutValid s.rep.pend s.put
      → s.rep.sock ≡ fd
      → s.rep.pend < fuel
      → Synced s (sync os fuel s)
  unfolding sync
  sync-Synced fuel s v at h = sync_on-Synced fuel s s.put refl v at h
