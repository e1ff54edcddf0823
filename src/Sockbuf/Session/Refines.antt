-- ===== src/Sockbuf/Session/Refines.antt =====
-- The calls on a `sockbuf` (socket++/sockstream.cpp) refine two queues of characters.
use mathlib.Core.Path.{ap₂}
use cpr.Common.{
  ℕ, ◌+◌, ◌<◌, ◌≡◌, refl, sym, ap, ◌∙◌, List, [], ◌∷◌, ◌++◌, append-nil, append_assoc, arith,
  Result, ok, thrown, running, Action, follow, pure, take, drop, length, length-append, drop-drop,
  take-append_left, take-append_rest,
}
use cpr.Os.{Os}
use cpr.Os.Laws.{Duplex}
use cpr.Sockbuf.State.{Sock}
use cpr.Sockbuf.Session.{
  Op, puts, flushes, gets, output, taken, left, outputs, all_taken, all_left, perform, run,
}
use cpr.Sockbuf.Session.Calls.{written_by, waiting_for, IsOpen, Stops, Performs, perform-Performs}

module _ (os : Os) (fd : ℕ) (duplex : Duplex os fd) where
  -- How a sequence of calls ends.
  abbrev pub Refines : List Op → Sock os.World → Result (List ℕ) × Sock os.World → Type 0
  Refines ops s (ok xs, t) =
      (written_by os fd duplex t ≡ written_by os fd duplex s ++ outputs ops)
      × (xs ≡ all_taken ops (waiting_for os fd duplex s))
      × (waiting_for os fd duplex t ≡ all_left ops (waiting_for os fd duplex s))
  Refines ops s (thrown e, t) = Stops os fd duplex (outputs ops) s t
  Refines ops s (running, t) = ⊥

  -- What is left behind a call is a back part of what waited.
  left-drop : (op : Op) (xs : List ℕ) → (j : ℕ) × (left op xs ≡ drop j xs)
  left-drop (puts bs) xs = (0, refl)
  left-drop flushes xs = (0, refl)
  left-drop (gets n) xs = (n, refl)

  -- The rest of the sequence, after a call that has returned `xs`.
  joined-Refines :
      (op : Op) (ops : List Op) (xs : List ℕ) (s t : Sock os.World)
      (r : Result (List ℕ) × Sock os.World)
      → written_by os fd duplex t ≡ written_by os fd duplex s ++ output op
      → xs ≡ taken op (waiting_for os fd duplex s)
      → waiting_for os fd duplex t ≡ left op (waiting_for os fd duplex s)
      → Refines ops t r
      → Refines (op ∷ ops) s (follow (λ ys. pure (xs ++ ys)) r)
  unfolding outputs all_taken all_left
  joined-Refines op ops xs s t (ok ys, u) h x w (h', y, w') = (
    h'
        ∙ ap (λ zs. zs ++ outputs ops) h
        ∙ append_assoc (written_by os fd duplex s) (output op) (outputs ops),
    ap₂ ◌++◌ x (y ∙ ap (all_taken ops) w),
    w' ∙ ap (all_left ops) w,
  )
  joined-Refines op ops xs s t (thrown e, u) h x w ((k, l, h'), (j, w')) =
      let (i, d) = left-drop op (waiting_for os fd duplex s) in
      (
        (
          length (output op) + k,
          omega (arith, length-append (output op) (outputs ops)),
          h'
              ∙ ap (λ zs. zs ++ take k (outputs ops)) h
              ∙ append_assoc (written_by os fd duplex s) (output op) (take k (outputs ops))
              ∙ ap (λ zs. written_by os fd duplex s ++ zs)
                  (sym (take-append_rest (output op) (outputs ops) k)),
        ),
        (i + j, w' ∙ ap (drop j) (w ∙ d) ∙ drop-drop j i (waiting_for os fd duplex s)),
      )
  joined-Refines op ops xs s t (running, u) h x w q = q

  first-Refines :
      (op : Op) (ops : List Op) (s : Sock os.World) (r : Result (List ℕ) × Sock os.World)
      (again : Action (Sock os.World) (List ℕ))
      → Performs os fd duplex op s r
      → ((t : Sock os.World) → IsOpen os fd duplex t → t.rep ≡ s.rep → Refines ops t (again t))
      → Refines (op ∷ ops) s (follow (λ xs t. follow (λ ys. pure (xs ++ ys)) (again t)) r)
  unfolding outputs
  first-Refines op ops s (ok xs, t) again (h, x, w, o, rep) k =
      joined-Refines op ops xs s t (again t) h x w (k t o rep)
  first-Refines op ops s (thrown e, t) again (((k, l, h), q), _, _) rest = (
    (
      k,
      omega (arith, length-append (output op) (outputs ops)),
      h
          ∙ ap (λ zs. written_by os fd duplex s ++ zs)
              (sym (take-append_left k (output op) (outputs ops) l)),
    ),
    q,
  )
  first-Refines op ops s (running, t) again p rest = absurd p

  -- Any sequence of `xsputn`, `sync` and `xsgetn` on an object that may write and read, over a
  -- connection whose directions do not disturb each other, with fuel above the buffer's size,
  -- always ends, and behaves as two queues of characters: if no call throws, what was written
  -- has grown by the texts in their order, what was read is what the calls ask for of the
  -- characters that wait, in order, and the rest of them still waits. If a call throws, what
  -- was written has grown by a front part of the texts, and what waits is a back part of what
  -- did.
  pub run-Refines :
      (fuel : ℕ) (ops : List Op) (s : Sock os.World)
      → IsOpen os fd duplex s
      → s.rep.pend < fuel
      → Refines ops s (run os fuel ops s)
  unfolding run outputs all_taken all_left
  run-Refines fuel [] s o f = (sym (append-nil (written_by os fd duplex s)), refl, refl)
  run-Refines fuel (op ∷ ops) s o f =
      first-Refines op ops s (perform os fuel op s) (run os fuel ops)
        (perform-Performs os fd duplex fuel op s o f)
        (λ t o' rep. run-Refines fuel ops t o' (omega (arith, ap (λ r. r.pend) rep)))
