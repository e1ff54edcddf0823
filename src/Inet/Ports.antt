-- ===== src/Inet/Ports.antt =====
-- Ports (socket++/sockinet.cpp): the two byte orders, and the search of `bind_until_success`.
use cpr.Common.{
  ℕ, zero, suc, ◌+◌, ◌%◌, ◌^◌, ◌≤◌, ◌<◌, ◌≡◌, ◌≢◌, refl, sym, ap, ◌∙◌, subst, Bool, true, false,
  ◌==◌, Option, some, Result, ok, thrown, running, err, sockoob, written, Bool-cases, ==_iff, inl,
  inr, arith,
}
use cpr.Errno.{eaddrinuse}
use cpr.Os.{Os, Sys, done, fails, SockAddr, inet}
use cpr.Sockbuf.State.{Sock, settle, or_throw}
use cpr.Sockbuf.Lifecycle
use cpr.Inet.{htons, getport, from_number, bind_port, bind_until_success, after_bind}

-- `getport` gives back the port of which a `sockinetaddr` was built, as far as 16 bits hold it.
pub getport-from_number : (addr port_no : ℕ) → getport (from_number addr port_no) ≡ port_no % 2 ^ 16
unfolding getport from_number htons
getport-from_number addr port_no = omega arith

-- A call that has not run out of its fuel.
abbrev pub has_ended : {A : Type 0} → Result A → Bool
has_ended (ok a) = true
has_ended (thrown e) = true
has_ended running = false

-- The address that `bind (port_no)` asks for.
abbrev pub at_port : ℕ → SockAddr
at_port p = inet (from_number 0 p)

-- Whether `bind (p)` leaves the choice of a port to the system.
abbrev pub any_port : ℕ → Bool
any_port p = p % 2 ^ 16 == 0

module _ {W : Type 0} (used : W → ℕ → Bool) (ephemeral : ℕ → Bool)
    (bound : W → Option SockAddr) where
  -- Why `bind (p)` is refused: the port is used, or, where the system is to choose one, all those that
  -- it chooses from are. The Boolean is `any_port p`.
  abbrev pub InUse : Bool → ℕ → W → Type 0
  InUse false p w = used w (p % 2 ^ 16) ≡ true
  InUse true p w = (q : ℕ) → ephemeral q ≡ true → used w q ≡ true

  -- There is a port that `bind (p)` may get.
  abbrev pub HasFree : Bool → ℕ → W → Type 0
  HasFree false p w = used w (p % 2 ^ 16) ≡ false
  HasFree true p w = (q : ℕ) × (ephemeral q ≡ true) × (used w q ≡ false)

  -- The address that a `bind (p)` in the state `w` has given: its own port, or one that was chosen.
  abbrev pub Gives : Bool → ℕ → W → W → Type 0
  Gives false p w w' = (used w (p % 2 ^ 16) ≡ false) × (bound w' ≡ some (at_port p))
  Gives true p w w' =
      (q : ℕ) × (ephemeral q ≡ true) × (used w q ≡ false) × (bound w' ≡ some (at_port q))

  abbrev pub Binds : ℕ → W → Sys (Unit {0}) × W → Type 0
  Binds p w (done _, w') = Gives (any_port p) p w w'
  Binds p w (fails e, w') =
      (bound w' ≡ bound w)
      × ((q : ℕ) → used w' q ≡ used w q)
      × (e ≡ eaddrinuse → InUse (any_port p) p w)

-- What the search relies on of `bind`. It gives the descriptor an address whose port no other socket
-- uses: for port 0 one of the system's choice. `EADDRINUSE` says that the port is used, or for port 0
-- that all ports to choose from are. It may fail with other errors whenever it likes.
pub record PortTable (os : Os) (fd : ℕ) : Type 0 where
  pub used : os.World → ℕ → Bool
  pub ephemeral : ℕ → Bool
  pub bound : os.World → Option SockAddr
  pub bind_takes :
      (p : ℕ) (w : os.World) → Binds used ephemeral bound p w (os.bind fd (at_port p) w)

module _ (os : Os) (fd : ℕ) (ports : PortTable os fd) where
  -- The port that `bind (p)` asks for is used, and one that it may get is not.
  abbrev pub Taken : Sock os.World → ℕ → Type 0
  Taken s p = InUse ports.used ports.ephemeral ports.bound (any_port p) p s.world

  abbrev pub Free : Sock os.World → ℕ → Type 0
  Free s p = HasFree ports.used ports.ephemeral ports.bound (any_port p) p s.world

  abbrev pub SamePorts : Sock os.World → Sock os.World → Type 0
  SamePorts s t = (q : ℕ) → ports.used t.world q ≡ ports.used s.world q

  abbrev pub Given : ℕ → Sock os.World → Sock os.World → Type 0
  Given p s t = Gives ports.used ports.ephemeral ports.bound (any_port p) p s.world t.world

  Taken-same : (s t : Sock os.World) (p : ℕ) → SamePorts s t → Taken t p → Taken s p
  Taken-same s t p same = by_port (any_port p)
    where
      by_port :
          (b : Bool)
          → InUse ports.used ports.ephemeral ports.bound b p t.world
          → InUse ports.used ports.ephemeral ports.bound b p s.world
      by_port false u = sym (same (p % 2 ^ 16)) ∙ u
      by_port true u = λ q e. sym (same q) ∙ u q e

  Given-same : (s t u : Sock os.World) (p : ℕ) → SamePorts s t → Given p t u → Given p s u
  Given-same s t u p same = by_port (any_port p)
    where
      by_port :
          (b : Bool)
          → Gives ports.used ports.ephemeral ports.bound b p t.world u.world
          → Gives ports.used ports.ephemeral ports.bound b p s.world u.world
      by_port false (f, e) = (sym (same (p % 2 ^ 16)) ∙ f, e)
      by_port true (q, c, f, e) = (q, c, sym (same q) ∙ f, e)

  abbrev Bound : ℕ → Sock os.World → Result (Unit {0}) × Sock os.World → Type 0
  Bound p s (ok _, t) = Given p s t
  Bound p s (thrown (err e), t) =
      (ports.bound t.world ≡ ports.bound s.world)
      × SamePorts s t
      × (e.code ≡ eaddrinuse → Taken s p)
      × (t.rep ≡ s.rep)
  Bound p s (thrown sockoob, t) = ⊥
  Bound p s (thrown (written n), t) = ⊥
  Bound p s (running, t) = ⊥

  bind_port-Bound : (p : ℕ) (s : Sock os.World) → s.rep.sock ≡ fd → Bound p s (bind_port os p s)
  unfolding bind_port Lifecycle.bind from_number
  bind_port-Bound p s at = by_result (os.bind s.rep.sock (at_port p) s.world) (
      subst
        (λ d.
          Binds ports.used ports.ephemeral ports.bound p s.world (os.bind d (at_port p) s.world))
        (sym at) (ports.bind_takes p s.world))
    where
      by_result :
          (r : Sys (Unit {0}) × os.World)
          → Binds ports.used ports.ephemeral ports.bound p s.world r
          → Bound p s (let (o, s') = settle s r in or_throw "sockbuf::bind" o s')
      by_result (done _, w) b = b
      by_result (fails e, w) (b, same, u) = (b, same, u, refl)

  -- What `bind_until_success (p)` does: the number it returns is the first from `p` on for which
  -- `bind` is not refused, and the descriptor has the address that it stands for. If it throws the
  -- descriptor has no new address, and the error is another one than `EADDRINUSE`.
  abbrev pub Finds : ℕ → ℕ → Sock os.World → Result ℕ × Sock os.World → Type 0
  Finds p limit s (ok n, t) =
      (p ≤ n) × (n < limit) × ((q : ℕ) → p ≤ q → q < n → Taken s q) × Given n s t
  Finds p limit s (thrown (err e), t) =
      (e.code ≢ eaddrinuse) × (ports.bound t.world ≡ ports.bound s.world)
  Finds p limit s (thrown sockoob, t) = ⊥
  Finds p limit s (thrown (written n), t) = ⊥
  Finds p limit s (running, t) = (q : ℕ) → p ≤ q → q < limit → Taken s q

  -- `Taken` from the next number on, and at this one.
  from-Taken :
      (p limit : ℕ) (s t : Sock os.World)
      → Taken s p
      → SamePorts s t
      → ((q : ℕ) → suc p ≤ q → q < limit → Taken t q)
      → (q : ℕ) → p ≤ q
      → q < limit
      → Taken s q
  from-Taken p limit s t b same before q l m = elim (Bool-cases (q == p)) [
    | inl z ↦ subst (Taken s) (sym ((==_iff q p).0 z)) b
    | inr z ↦ Taken-same s t q same (before q (ground (arith, z, l)) m)
  ]

  earlier :
      (p limit : ℕ) (s t : Sock os.World) (r : Result ℕ × Sock os.World)
      → Taken s p
      → p < limit
      → ports.bound t.world ≡ ports.bound s.world
      → SamePorts s t
      → Finds (suc p) limit t r
      → Finds p limit s r
  earlier p limit s t (ok n, u) b h k same (le, lt, before, g) =
      (omega arith, lt, from-Taken p n s t b same before, Given-same s t u n same g)
  earlier p limit s t (thrown (err c), u) b h k same (ne, e) = (ne, e ∙ k)
  earlier p limit s t (thrown sockoob, u) b h k same f = f
  earlier p limit s t (thrown (written n), u) b h k same f = f
  earlier p limit s t (running, u) b h k same f = from-Taken p limit s t b same f

  -- One round, by the outcome of its `bind`.
  after_bind-Finds :
      (p limit : ℕ) (s : Sock os.World) (again : Sock os.World → Result ℕ × Sock os.World)
      (r : Result (Unit {0}) × Sock os.World)
      → s.rep.sock ≡ fd
      → p < limit
      → Bound p s r
      → ((t : Sock os.World) → t.rep.sock ≡ fd → Finds (suc p) limit t (again t))
      → Finds p limit s (after_bind os p again r)
  after_bind-Finds p limit s again (ok _, t) at h g k =
      (omega arith, h, (λ q l m. absurd (omega arith)), g)
  after_bind-Finds p limit s again (thrown (err c), t) at h (b, same, u, rep) k =
      elim (Bool-cases (c.code == eaddrinuse)) [
        | inl z ↦ rw z (
            earlier p limit s t (again t) (u ((==_iff c.code eaddrinuse).0 z)) h b same
              (k t (ap (λ r. r.sock) rep ∙ at)))
        | inr z ↦ rw z ((λ e. absurd (ground (arith, z, (==_iff c.code eaddrinuse).1 e))), b)
      ]
  after_bind-Finds p limit s again (thrown sockoob, t) at h b k = absurd b
  after_bind-Finds p limit s again (thrown (written n), t) at h b k = absurd b
  after_bind-Finds p limit s again (running, t) at h b k = absurd b

  -- `bind_until_success (p)`, if it returns, returns the first number from `p` on for which
  -- `bind` is not refused, that is, every one before it stands for a port, its lower 16 bits,
  -- that another socket uses, or for port 0, where the system chooses one, while all ports to
  -- choose from are used; and the descriptor has the address of the number's own port, or for
  -- port 0 that of a port that the system chooses, which no other socket uses. If it throws, it
  -- is an `err` with another code than `EADDRINUSE`, and the descriptor has no new address. It
  -- is still running after its fuel only if all the numbers that it may have tried stand for
  -- such ports.
  pub bind_until_success-Finds :
      (fuel p : ℕ) (s : Sock os.World)
      → s.rep.sock ≡ fd
      → Finds p (p + fuel) s (bind_until_success os fuel p s)
  unfolding bind_until_success
  bind_until_success-Finds zero p s at = λ q l m. absurd (omega arith)
  bind_until_success-Finds (suc fuel) p s at =
      after_bind-Finds p (p + suc fuel) s _ _ at (omega arith) (bind_port-Bound p s at) (λ t at'.
        subst (λ l. Finds (suc p) l t (bind_until_success os fuel (suc p) t)) (omega arith)
          (bind_until_success-Finds fuel (suc p) t at'))
