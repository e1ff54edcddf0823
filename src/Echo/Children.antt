-- ===== src/Echo/Children.antt =====
-- What `serve_clients` of the echo server does with processes (socket++/echo.cpp).
use cpr.Common.{
  false, ℕ, zero, suc, ◌≡◌, refl, sym, ap, ◌∙◌, subst, List, [], ℤ, true, ◌⊎◌, inl, inr, Action,
  Result, ok, thrown, running, Thrown, follow, pure, ◌>>◌,
}
use cpr.Os.{Os}
use cpr.Sockbuf.State.{Sock, construct}
use cpr.Sockbuf.Lifecycle.{accept, listen}
use cpr.Inet.{Resolver}
use cpr.Protocol.{PName}
use cpr.Fork.{deliver, ForkOs, Forks, Process, construct_process, sigterm}
use cpr.Echo.Server.{
  Server, Role, serves, exits, on_buf, bind_server, closed, after_relay, after_fork, serve_one,
  serve_loop, serve_clients, set_suicide,
}
use cpr.Echo.Forked.{
  Follows, same, Follows-trans, deliver-Follows, deliver-empty, Forked, construct_process-Forked,
  destroy_fork-same, suicide_signal-list,
}
use cpr.Echo.Binding.{bind_server-forks}

module _ (os : Os) (fos : ForkOs) (net : Resolver) (fuel : ℕ) where
  -- The list in the parent comes from an earlier one; in a child it is empty.
  abbrev pub InProcess : List Process → Server os.World fos.World → Type 0
  InProcess old t =
      ((t.child ≡ false) × Follows fos old t.forks.list) ⊎ ((t.child ≡ true) × (t.forks.list ≡ []))

  -- The list behind a round, by what has become of the process.
  abbrev pub Lists : List Process → Result Role × Server os.World fos.World → Type 0
  Lists old (ok serves, t) = (t.child ≡ false) × Follows fos old t.forks.list
  Lists old (ok exits, t) = (t.child ≡ true) × (t.forks.list ≡ [])
  Lists old (thrown e, t) = InProcess old t
  Lists old (running, t) = InProcess old t

  closed-Lists :
      (old : List Process) (x : Result (Unit {0}) × (Sock os.World × Server os.World fos.World))
      → (x.1.1.child ≡ false) × Follows fos old x.1.1.forks.list
      → Lists old (closed os fos net fuel (ok serves) x)
  closed-Lists old (ok _, (c, s)) m = m
  closed-Lists old (thrown e, (c, s)) m = inl m
  closed-Lists old (running, (c, s)) m = inl m

  thrown-Lists :
      (old : List Process) (e : Thrown)
      (x : Result (Unit {0}) × (Sock os.World × Server os.World fos.World))
      → (x.1.1.child ≡ true) × (x.1.1.forks.list ≡ [])
      → Lists old (closed os fos net fuel (thrown e) x)
  thrown-Lists old e (ok _, (c, s)) m = inr m
  thrown-Lists old e (thrown x, (c, s)) m = inr m
  thrown-Lists old e (running, (c, s)) m = inr m

  after_relay-Lists :
      (old : List Process) (p : Process)
      (x : Result (Unit {0}) × (Sock os.World × Server os.World fos.World))
      → (x.1.1.child ≡ true) × (x.1.1.forks.list ≡ [])
      → Lists old (after_relay os fos net fuel p x)
  after_relay-Lists old p (ok _, (c, s)) m = m
  after_relay-Lists old p (thrown e, (c, s)) (b, m) =
      thrown-Lists old e _ (b, ap (λ f. f.list) (destroy_fork-same fos p s.forks) ∙ m)
  after_relay-Lists old p (running, (c, s)) m = inr m

  after_fork-Lists :
      (times : ℕ) (old : List Process) (c : Sock os.World) (s : Server os.World fos.World)
      (f : Process × Forks fos.World)
      → s.child ≡ false
      → Forked fos old f
      → Lists old (after_fork os fos net fuel times c s f)
  after_fork-Lists times old c s (p, forks) parent (inl (b, m)) =
      rw b (after_relay-Lists old p _ (refl, deliver-empty fos times forks m))
  after_fork-Lists times old c s (p, forks) parent (inr (b, m)) = rw b (
      closed-Lists old _ (
        parent,
        subst (λ f. Follows fos old f.list)
            (sym (destroy_fork-same fos p (deliver fos times forks)))
            (deliver-Follows fos times old forks m),
      ))

  -- A call on the socket leaves the children alone, and the rest of the block decides.
  follow-Lists :
      {A : Type 0} (old : List Process) (k : A → Action (Server os.World fos.World) Role)
      (r : Result A × Server os.World fos.World)
      → r.1.child ≡ false
      → r.1.forks.list ≡ old
      → ((a : A) (t : Server os.World fos.World)
          → t.child ≡ false
          → t.forks.list ≡ old
          → Lists old (k a t))
      → Lists old (follow k r)
  follow-Lists old k (ok a, t) c e q = q a t c e
  follow-Lists old k (thrown x, t) c e q = inl (c, subst (Follows fos old) (sym e) (same old))
  follow-Lists old k (running, t) c e q = inl (c, subst (Follows fos old) (sym e) (same old))

  serve_one-Lists :
      (times bufsiz : ℕ) (gbuf pbuf : List ℕ) (address : ℕ) (s : Server os.World fos.World)
      → s.child ≡ false
      → Lists s.forks.list (serve_one os fos net fuel times bufsiz gbuf pbuf address s)
  unfolding serve_one
  serve_one-Lists times bufsiz gbuf pbuf address s c =
      follow-Lists s.forks.list _ (on_buf (accept os) s) c refl (λ sd t c' e.
        after_fork-Lists times s.forks.list (construct bufsiz sd gbuf pbuf t.buf.errno t.buf.world)
          t _ c'
          (subst (λ l. Forked fos l (construct_process fos address true true t.forks)) e
            (construct_process-Forked fos address t.forks)))

  -- The loop ends only in a child, or by an exception.
  abbrev pub Serves : List Process → Result Role × Server os.World fos.World → Type 0
  Serves old (ok serves, t) = ⊥
  Serves old (ok exits, t) = (t.child ≡ true) × (t.forks.list ≡ [])
  Serves old (thrown e, t) = InProcess old t
  Serves old (running, t) = InProcess old t

  InProcess-later :
      (old : List Process) (t u : Server os.World fos.World)
      → Follows fos old t.forks.list
      → InProcess t.forks.list u
      → InProcess old u
  InProcess-later old t u m (inl (c, q)) = inl (c, Follows-trans fos m q)
  InProcess-later old t u m (inr q) = inr q

  -- The lists of a round come from those of the rounds before.
  Serves-later :
      (old : List Process) (t : Server os.World fos.World)
      (r : Result Role × Server os.World fos.World)
      → Follows fos old t.forks.list
      → Serves t.forks.list r
      → Serves old r
  Serves-later old t (ok serves, u) m q = q
  Serves-later old t (ok exits, u) m q = q
  Serves-later old t (thrown x, u) m q = InProcess-later old t u m q
  Serves-later old t (running, u) m q = InProcess-later old t u m q

  after_round-Serves :
      (old : List Process) (r : Result Role × Server os.World fos.World)
      (again : Action (Server os.World fos.World) Role)
      → Lists old r
      → ((t : Server os.World fos.World) → t.child ≡ false → Serves t.forks.list (again t))
      → Serves old (
          follow
            (λ role. elim role as (λ _. Action (Server os.World fos.World) Role) [
              | exits ↦ pure exits
              | serves ↦ again
            ])
            r)
  after_round-Serves old (ok serves, t) again (c, m) k = Serves-later old t (again t) m (k t c)
  after_round-Serves old (ok exits, t) again m k = m
  after_round-Serves old (thrown e, t) again m k = m
  after_round-Serves old (running, t) again m k = m

  serve_loop-Serves :
      (times : ℕ → ℕ) (bufsiz : ℕ) (gbuf pbuf : List ℕ) (rounds : ℕ) (s : Server os.World fos.World)
      → s.child ≡ false
      → Serves s.forks.list (serve_loop os fos net fuel times bufsiz gbuf pbuf rounds s)
  unfolding serve_loop
  serve_loop-Serves times bufsiz gbuf pbuf zero s c = inl (c, same s.forks.list)
  serve_loop-Serves times bufsiz gbuf pbuf (suc rounds) s c =
      after_round-Serves s.forks.list _ (serve_loop os fos net fuel times bufsiz gbuf pbuf rounds)
        (serve_one-Lists (times rounds) bufsiz gbuf pbuf rounds s c)
        (serve_loop-Serves times bufsiz gbuf pbuf rounds)

  -- The calls before the loop leave the children alone.
  follow-Serves :
      {A : Type 0} (old : List Process) (k : A → Action (Server os.World fos.World) Role)
      (r : Result A × Server os.World fos.World)
      → r.1.child ≡ false
      → r.1.forks.list ≡ old
      → ((a : A) (t : Server os.World fos.World)
          → t.child ≡ false
          → t.forks.list ≡ old
          → Serves old (k a t))
      → Serves old (follow k r)
  follow-Serves old k (ok a, t) c e q = q a t c e
  follow-Serves old k (thrown x, t) c e q = inl (c, subst (Follows fos old) (sym e) (same old))
  follow-Serves old k (running, t) c e q = inl (c, subst (Follows fos old) (sym e) (same old))

  -- `serve_clients`, begun in a process that is no child, ends by an exception or at the `exit`
  -- of a child and never returns in the parent. If it has thrown or is still running in the
  -- parent, the list of child processes comes from the one before by steps of two kinds: an
  -- object for a child that `fork` has made, with its `pid` and with `kill_child` set, is put
  -- in front, and the object of a process whose end `waitpid` has reported is taken out; so no
  -- child is lost otherwise, however often `SIGCHLD` arrives. In a child, where it is at
  -- `exit`, has thrown or is running, the list is empty.
  pub serve_clients-Serves :
      (times : ℕ → ℕ) (bufsiz : ℕ) (gbuf pbuf : List ℕ) (pn : PName) (portno : ℤ) (rounds : ℕ)
      (s : Server os.World fos.World)
      → s.child ≡ false
      → Serves s.forks.list
          (serve_clients os fos net fuel times bufsiz gbuf pbuf pn portno rounds s)
  unfolding serve_clients
  serve_clients-Serves times bufsiz gbuf pbuf pn portno rounds s c =
      let (c', f) = bind_server-forks os fos net fuel pn portno s in
      follow-Serves s.forks.list _ (bind_server os fos net fuel pn portno s) (c' ∙ c)
        (ap (λ f. f.list) f)
        (λ _ t b e.
          follow-Serves s.forks.list (λ _. after_listen) (on_buf (listen os 4096) t) b e
            (λ _ u b' e'.
              subst (λ l. Serves l (after_listen u)) (suicide_signal-list fos sigterm u.forks ∙ e')
                (serve_loop-Serves times bufsiz gbuf pbuf rounds _ b')))
    where
      after_listen : Action (Server os.World fos.World) Role
      after_listen =
          set_suicide os fos net fuel >> serve_loop os fos net fuel times bufsiz gbuf pbuf rounds
