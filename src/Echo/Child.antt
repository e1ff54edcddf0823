-- ===== src/Echo/Child.antt =====
-- What a child of the echo server does for its client (socket++/echo.cpp).
use cpr.Common.{
  ℕ, ◌<◌, ◌≡◌, refl, sym, ap, ◌∙◌, subst, List, [], ◌++◌, true, false, ltb, none, some, inl, inr,
  Thrown, Result, ok, thrown, running, length, arith,
}
use cpr.Os.{Os, Sys, done, fails}
use cpr.Os.Laws.{Duplex, Keeps}
use cpr.Sockbuf.State.{Sock, PutArea, construct, settle, or_throw}
use cpr.Sockbuf.Buffer.{overflow, overflow_on, sync, sync_on}
use cpr.Sockbuf.Lifecycle.{accept, destroy, release}
use cpr.Inet.{Resolver}
use cpr.Fork.{ForkOs, Forks, Process, construct_process, with_reaper, is_child, deliver}
use cpr.Echo.{relay}
use cpr.Echo.Relay.{SentFront, Echoes, relay-Echoes}
use cpr.Echo.Forked.{construct_process-Forked, destroy_fork-same, deliver-empty}
use cpr.Echo.Server.{
  Server, Role, serves, exits, settle_conn, give_back, drop_fork, closed, after_relay, serve_one,
}

module _ (os : Os) (fos : ForkOs) (net : Resolver) (fuel : ℕ) where
  accept-done :
      (fd : ℕ) (b : Sock os.World) (w : os.World)
      → os.accept b.rep.sock b.world ≡ (done fd, w)
      → accept os b ≡ (ok fd, record b { world = w })
  unfolding accept
  accept-done fd b w e = rw e refl

  in_child :
      (address : ℕ) (f : Forks fos.World)
      → (fos.fork (with_reaper fos f).world).0 ≡ done 0
      → is_child fos (construct_process fos address true true f).0 ≡ true
  unfolding construct_process is_child
  in_child address f e = rw e refl

  no_children :
      (address : ℕ) (f : Forks fos.World)
      → is_child fos (construct_process fos address true true f).0 ≡ true
      → (construct_process fos address true true f).1.list ≡ []
  no_children address f b = elim (construct_process-Forked fos address f) [
    | inl q ↦ q.1
    | inr q ↦ absurd (let n = q.0 in cc (b, n))
  ]

  module _ (fd : ℕ) (duplex : Duplex os fd) where
    -- How the round of a child ends, which it has begun with the connection `c`.
    abbrev pub EchoesClient : Sock os.World → Result Role × Server os.World fos.World → Type 0
    EchoesClient c (ok exits, t) =
        (t.child ≡ true)
        × (t.forks.list ≡ [])
        × (duplex.output.accepted t.buf.world fd
            ≡ duplex.output.accepted c.world fd ++ duplex.input.pending c.world fd)
        × (duplex.input.pending t.buf.world fd ≡ [])
    EchoesClient c (ok serves, t) = ⊥
    EchoesClient c (thrown e, t) =
        (t.child ≡ true)
        × (t.forks.list ≡ [])
        × ((ys : List ℕ) × (zs : List ℕ) × (duplex.input.pending c.world fd ≡ ys ++ zs)
            × (duplex.output.accepted t.buf.world fd ≡ duplex.output.accepted c.world fd ++ ys))
    EchoesClient c (running, t) = ⊥

    -- The destructor of a connection in whose buffer nothing was put only closes it.
    destroy_idle :
        (c : Sock os.World) (q : PutArea)
        → c.put ≡ some q
        → q.pptr ≡ 0
        → destroy os fuel 1 c ≡ release os c
    unfolding destroy overflow overflow_on sync sync_on
    destroy_idle c q e z =
        let none_put : ltb 0 q.pptr ≡ false = ground (arith, z) in rw (e, none_put) refl

    module _
        (close_keeps : (w : os.World) → Keeps duplex.output.accepted fd w (os.close fd w)) where
      -- What a `close` leaves of an exception in the child.
      closed-EchoesClient :
          (e : Thrown) (c d : Sock os.World) (t : Server os.World fos.World)
          (r : Sys (Unit {0}) × os.World)
          → t.child ≡ true
          → t.forks.list ≡ []
          → SentFront os fd duplex (duplex.input.pending c.world fd) c d
          → Keeps duplex.output.accepted fd d.world r
          → EchoesClient c (
              closed os fos net fuel (thrown e) (
                settle_conn t (
                  let (o, u) = settle (record d { get = none; put = none }) r in
                  or_throw "sockbuf::~sockbuf" o u)))
      closed-EchoesClient e c d t (done _, w) b l (ys, zs, split, sent, same) k =
          (b, l, (ys, zs, split, k ∙ sent))
      closed-EchoesClient e c d t (fails n, w) b l (ys, zs, split, sent, same) k =
          (b, l, (ys, zs, split, k ∙ sent))

      after_relay-EchoesClient :
          (p : Process) (q : PutArea) (c : Sock os.World) (t : Server os.World fos.World)
          (x : Result (Unit {0}) × Sock os.World)
          → t.child ≡ true
          → t.forks.list ≡ []
          → c.put ≡ some q
          → q.pptr ≡ 0
          → c.rep.sock ≡ fd
          → Echoes os fd duplex c x
          → EchoesClient c (after_relay os fos net fuel p (settle_conn t x))
      after_relay-EchoesClient p q c t (ok _, d) b l e z at (sent, read) = (b, l, sent, read)
      after_relay-EchoesClient p q c t (thrown x, d) b l e z at (ys, zs, split, sent, same) =
          rw (destroy_idle d q (same.put ∙ e) z) (
            closed-EchoesClient x c d (drop_fork os fos net fuel p (give_back d t))
              (os.close d.rep.sock d.world) b
              (ap (λ f. f.list) (destroy_fork-same fos p t.forks) ∙ l) (ys, zs, split, sent, same)
              (subst (λ f. Keeps duplex.output.accepted fd d.world (os.close f d.world))
                (sym (ap (λ r. r.sock) same.rep ∙ at)) (close_keeps d.world)))
      after_relay-EchoesClient p q c t (running, d) b l e z at n = absurd n

      -- If `accept` has returned a connection whose directions do not disturb each other
      -- and on which `close` accepts no bytes, and `fork` has returned 0, a round of
      -- `serve_clients` always ends, in a child that has no children, however often
      -- `SIGCHLD` arrives. It does not go on to another round: it ends at `exit`, and then
      -- the system has accepted all the client's bytes, in order, and none are left; or it
      -- throws, and then, with the connection destroyed, the system has accepted a front
      -- part of them. The fuel is above 1024 and above the number of bytes that come in.
      pub serve_one-Echoes :
          (times bufsiz : ℕ) (gbuf pbuf : List ℕ) (address : ℕ) (s : Server os.World fos.World)
          (w : os.World)
          → os.accept s.buf.rep.sock s.buf.world ≡ (done fd, w)
          → (fos.fork (with_reaper fos s.forks).world).0 ≡ done 0
          → 1024 < fuel
          → length (duplex.input.pending w fd) < fuel
          → EchoesClient
              (construct bufsiz fd gbuf pbuf s.buf.errno w)
              (serve_one os fos net fuel times bufsiz gbuf pbuf address s)
      unfolding serve_one construct
      serve_one-Echoes times bufsiz gbuf pbuf address s w e child f l =
          let c : Sock os.World = construct bufsiz fd gbuf pbuf s.buf.errno w in
          let b = in_child address s.forks child in
          let forks = (construct_process fos address true true s.forks).1 in
          let t : Server os.World fos.World = record s {
            buf = record s.buf { world = w };
            forks = deliver fos times forks;
            child = true;
          } in
          rw (accept-done fd s.buf w e, b)
            (after_relay-EchoesClient _ _ c t (relay os fuel fuel c) refl
              (deliver-empty fos times forks (no_children address s.forks b)) refl refl refl
              (relay-Echoes os fd duplex fuel fuel c refl f l))
