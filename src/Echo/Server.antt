-- ===== src/Echo/Server.antt =====
-- `serve_clients` of the echo server (socket++/echo.cpp). A process is followed through `fork`: as the
-- parent or as the child, by what the system returns.
use cpr.Common.{
  ℕ, zero, suc, List, [], ◌∷◌, ◌++◌, Bool, ◌||◌, ℤ, pos, negsuc, leb, true, Action, Result, ok,
  thrown, running, pure, out_of_fuel, modify, ◌>>=◌, ◌>>◌, if◌then◌else◌, codes, decimal,
}
use cpr.Os.{Os}
use cpr.Sockbuf.State.{Sock, construct}
use cpr.Sockbuf.Lifecycle.{listen, accept, destroy}
use cpr.Inet.{Resolver, bind_port, bind_number, bind_service, localhost, localport}
use cpr.Protocol.{PName, protocol_name}
use cpr.Fork.{
  ForkOs, Forks, Process, construct_process, is_child, destroy_fork, suicide_signal, sigterm,
  deliver,
}
use cpr.Echo.{relay}

-- The object, the child processes, what has gone to `cout`, and whether the process that is followed
-- is a child: one in which `fork` has returned 0.
pub record Server (W V : Type 0) : Type 0 where
  pub buf : Sock W
  pub forks : Forks V
  pub cout : List ℕ
  pub child : Bool

-- How the process goes on: `exits` is the child, at its `exit (0)`.
pub data Role : Type 0 where
  serves exits : Role

-- `operator <<` of an `int`.
abbrev pub print_int : ℤ → List ℕ
print_int (pos n) = decimal n
print_int (negsuc n) = codes "-" ++ decimal (suc n)

module _ {W V : Type 0} where
  abbrev pub settle_buf : {A : Type 0} → Server W V → Result A × Sock W → Result A × Server W V
  settle_buf s (r, b) = (r, record s { buf = b })

  abbrev pub on_buf : {A : Type 0} → Action (Sock W) A → Action (Server W V) A
  on_buf m s = settle_buf s (m s.buf)

  -- The connection `s` of a round stands beside the server. The system and errno are the server's.
  abbrev pub share : Server W V → Sock W → Sock W
  share s c = record c { world = s.buf.world; errno = s.buf.errno }

  abbrev pub give_back : Sock W → Server W V → Server W V
  give_back c s = record s { buf = record s.buf { world = c.world; errno = c.errno } }

  abbrev pub settle_conn :
      {A : Type 0} → Server W V → Result A × Sock W → Result A × (Sock W × Server W V)
  settle_conn s (r, c) = (r, (c, give_back c s))

  abbrev pub on_conn : {A : Type 0} → Action (Sock W) A → Action (Sock W × Server W V) A
  on_conn m (c, s) = settle_conn s (m (share s c))

module _ (os : Os) (fos : ForkOs) (net : Resolver) (fuel : ℕ) where
  abbrev pub print : List ℕ → Action (Server os.World fos.World) (Unit {0})
  print xs = modify (λ s. record s { cout = s.cout ++ xs })

  -- `cout << "Host: " << localhost () << endl << "Port: " << localport () << endl`, its operands
  -- from left to right.
  unfoldable pub announce : Action (Server os.World fos.World) (Unit {0})
  announce = do
    print (codes "Host: ")
    host ← on_buf (localhost os net)
    print (host ++ (10 ∷ codes "Port: "))
    port ← on_buf (localport os)
    print (print_int port ++ 10 ∷ [])

  -- `protocol_name ()` is never null. `INADDR_ANY` is 0.
  unfoldable pub bind_server : PName → ℤ → Action (Server os.World fos.World) (Unit {0})
  bind_server pn (negsuc n) = on_buf (bind_service os net 0 (codes "echo") (protocol_name pn))
  bind_server pn (pos n) =
      if leb n 1024 then on_buf (bind_port os 0) >> announce else on_buf (bind_number os 0 n)

  -- The destructors of `f` and of the connection, behind a block that has ended with `r`.
  abbrev pub closed :
      {A : Type 0}
      → Result A
      → Result (Unit {0}) × (Sock os.World × Server os.World fos.World)
      → Result A × Server os.World fos.World
  closed r (ok _, (c, s)) = (r, s)
  closed r (thrown e, (c, s)) = (thrown e, s)
  closed r (running, (c, s)) = (running, s)

  abbrev pub drop_fork : Process → Server os.World fos.World → Server os.World fos.World
  drop_fork p s = record s { forks = destroy_fork fos p s.forks }

  abbrev pub end_round :
      {A : Type 0}
      → Result A
      → Process
      → Sock os.World × Server os.World fos.World
      → Result A × Server os.World fos.World
  end_round r p (c, s) = closed r (on_conn (destroy os fuel 1) (c, drop_fork p s))

  -- The child's block. Behind `exit` no destructor of a local variable is called.
  abbrev pub after_relay :
      Process
      → Result (Unit {0}) × (Sock os.World × Server os.World fos.World)
      → Result Role × Server os.World fos.World
  after_relay p (ok _, (c, s)) = (ok exits, s)
  after_relay p (thrown e, x) = end_round (thrown e) p x
  after_relay p (running, (c, s)) = (running, s)

  -- `Fork f (1, 1); if (f.is_child ()) { … }`, with the new object and the list behind it. Behind the
  -- `fork` and up to that of the next round only the handler uses the list, so that all the signals
  -- that arrive meanwhile, `times` of them, are handled here.
  abbrev pub after_fork :
      ℕ
      → Sock os.World
      → Server os.World fos.World
      → Process × Forks fos.World
      → Result Role × Server os.World fos.World
  after_fork times c s (p, forks) =
      let s' : Server os.World fos.World = record s {
        forks = deliver fos times forks;
        child = is_child fos p || s.child;
      } in
      if is_child fos p
      then after_relay p (on_conn (relay os fuel fuel) (c, s'))
      else end_round (ok serves) p (c, s')

  -- A round of `for (;;)`; `address` is that of the object that `f` makes.
  unfoldable pub serve_one : ℕ → ℕ → List ℕ → List ℕ → ℕ → Action (Server os.World fos.World) Role
  serve_one times bufsiz gbuf pbuf address = do
    sd ← on_buf (accept os)
    λ s.
        after_fork times (construct bufsiz sd gbuf pbuf s.buf.errno s.buf.world) s
          (construct_process fos address true true s.forks)

  -- `for (;;)`, with the rounds that it may make, and how often `SIGCHLD` arrives in each.
  unfoldable pub serve_loop :
      (ℕ → ℕ) → ℕ → List ℕ → List ℕ → ℕ → Action (Server os.World fos.World) Role
  serve_loop times bufsiz gbuf pbuf zero = out_of_fuel
  serve_loop times bufsiz gbuf pbuf (suc rounds) = do
    role ← serve_one (times rounds) bufsiz gbuf pbuf rounds
    elim role [ exits ↦ pure exits | serves ↦ serve_loop times bufsiz gbuf pbuf rounds ]

  -- What `perror` prints is not modelled.
  abbrev pub set_suicide : Action (Server os.World fos.World) (Unit {0})
  set_suicide = modify (λ s. record s { forks = (suicide_signal fos sigterm s.forks).1 })

  -- `listen` with `SOMAXCONN`, 4096 on Linux.
  unfoldable pub serve_clients :
      (ℕ → ℕ) → ℕ → List ℕ → List ℕ → PName → ℤ → ℕ → Action (Server os.World fos.World) Role
  serve_clients times bufsiz gbuf pbuf pn portno rounds = do
    bind_server pn portno
    on_buf (listen os 4096)
    set_suicide
    serve_loop times bufsiz gbuf pbuf rounds
