-- ===== src/Inet.antt =====
-- Internet sockets, `sockinetbuf` (socket++/sockinet.h, socket++/sockinet.cpp). Port numbers are not
-- negative, and strings are their characters up to the final NUL.
pub mod Address
pub mod Ports
unfoldable pub use Address.*
use cpr.Common.{
  ℕ, zero, suc, ◌+◌, ◌-◌, ◌*◌, ◌/◌, ◌%◌, ◌^◌, List, [], ◌∷◌, Option, none, some, ℤ, pos, negsuc,
  Bool, true, false, not, ◌&&◌, ◌==◌, leb, String, Action, Result, ok, thrown, running, err, Thrown,
  pure, throw, out_of_fuel, ◌>>=◌, ◌>>◌, if◌then◌else◌, codes, get_or, is_zero, of_bool, Err,
  sockoob, written,
}
use cpr.Errno.{eaddrinuse, eaddrnotavail, enoprotoopt}
use cpr.Os.{Os, InetAddr, SockAddr, inet, unix, tcp_nodelay, protocol_level, Call}
use cpr.Sockbuf.State.{Sock, call, checked}
use cpr.Sockbuf.Lifecycle
use cpr.Sockbuf.Options.{getopt, setopt, int_in}

module _ (os : Os) where
  -- What `getsockname` and `getpeername` leave in a `sockinetaddr`. The address of another family
  -- (1 is `AF_UNIX`) stands there byte by byte.
  abbrev pub inet_of : SockAddr → InetAddr
  inet_of (inet sa) = sa
  inet_of (unix path) = record {
    sin_family = 1;
    sin_port = bytes_at 0 2 path;
    sin_addr = bytes_at 2 4 path;
  }

  abbrev pub name_call : String → (ℕ → Call os.World SockAddr) → Action (Sock os.World) InetAddr
  name_call operation f s = (call (f s.rep.sock) >>= named) s
    where
      named : Option SockAddr → Action (Sock os.World) InetAddr
      named none t =
          (thrown (err (record { code = t.errno; operation = operation; specification = [] })), t)
      named (some sa) t = (ok (inet_of sa), t)

  unfoldable pub localaddr : Action (Sock os.World) InetAddr
  localaddr = name_call "sockinetbuf::localaddr" os.getsockname

  unfoldable pub peeraddr : Action (Sock os.World) InetAddr
  peeraddr = name_call "sockinetbuf::peeraddr" os.getpeername

  -- The port, or -1 for another family.
  abbrev pub port_of : InetAddr → ℤ
  port_of sa = if sa.sin_family == af_inet then pos (getport sa) else negsuc 0

  unfoldable pub localport : Action (Sock os.World) ℤ
  localport = do sa ← localaddr; pure (port_of sa)

  unfoldable pub peerport : Action (Sock os.World) ℤ
  peerport = do sa ← peeraddr; pure (port_of sa)

  abbrev pub host_of : Resolver → InetAddr → List ℕ
  host_of net sa = if sa.sin_family == af_inet then gethostname net sa else []

  unfoldable pub localhost : Resolver → Action (Sock os.World) (List ℕ)
  localhost net = do sa ← localaddr; pure (host_of net sa)

  unfoldable pub peerhost : Resolver → Action (Sock os.World) (List ℕ)
  peerhost net = do sa ← peeraddr; pure (host_of net sa)

  -- A call with an address that a constructor may fail to build.
  abbrev pub with_addr :
      (SockAddr → Action (Sock os.World) (Unit {0}))
      → Result InetAddr
      → Action (Sock os.World) (Unit {0})
  with_addr f (ok sa) s = f (inet sa) s
  with_addr f (thrown e) s = (thrown e, s)
  with_addr f running s = (running, s)

  -- `bind (sockAddr&)` and `connect (sockAddr&)`.
  unfoldable pub bind_sockaddr : SockAddr → Action (Sock os.World) (Unit {0})
  bind_sockaddr sa = Lifecycle.bind os sa

  unfoldable pub connect_sockaddr : SockAddr → Action (Sock os.World) (Unit {0})
  connect_sockaddr sa = Lifecycle.connect os sa

  unfoldable pub bind_port : ℕ → Action (Sock os.World) (Unit {0})
  bind_port port_no = Lifecycle.bind os (inet (from_number 0 port_no))

  unfoldable pub bind_number : ℕ → ℕ → Action (Sock os.World) (Unit {0})
  bind_number addr port_no = Lifecycle.bind os (inet (from_number addr port_no))

  unfoldable pub bind_host : Resolver → List ℕ → ℕ → Action (Sock os.World) (Unit {0})
  bind_host net host_name port_no = with_addr (Lifecycle.bind os) (from_host net host_name port_no)

  unfoldable pub bind_service : Resolver → ℕ → List ℕ → List ℕ → Action (Sock os.World) (Unit {0})
  bind_service net addr sn pn = with_addr (Lifecycle.bind os) (from_service net addr sn pn)

  unfoldable pub bind_names :
      Resolver → List ℕ → List ℕ → List ℕ → Action (Sock os.World) (Unit {0})
  bind_names net hn sn pn = with_addr (Lifecycle.bind os) (from_names net hn sn pn)

  unfoldable pub connect_number : ℕ → ℕ → Action (Sock os.World) (Unit {0})
  connect_number addr port_no = Lifecycle.connect os (inet (from_number addr port_no))

  unfoldable pub connect_host : Resolver → List ℕ → ℕ → Action (Sock os.World) (Unit {0})
  connect_host net host_name port_no =
      with_addr (Lifecycle.connect os) (from_host net host_name port_no)

  unfoldable pub connect_service :
      Resolver → ℕ → List ℕ → List ℕ → Action (Sock os.World) (Unit {0})
  connect_service net addr sn pn = with_addr (Lifecycle.connect os) (from_service net addr sn pn)

  unfoldable pub connect_names :
      Resolver → List ℕ → List ℕ → List ℕ → Action (Sock os.World) (Unit {0})
  connect_names net hn sn pn = with_addr (Lifecycle.connect os) (from_names net hn sn pn)

  -- What `bind_until_success` does with the outcome of `bind (portno)`; `again` is the next round.
  abbrev pub after_bind :
      ℕ → Action (Sock os.World) ℕ → Result (Unit {0}) × Sock os.World → Result ℕ × Sock os.World
  after_bind portno again (ok _, s) = (ok portno, s)
  after_bind portno again (thrown (err e), s) =
      if e.code == eaddrinuse then again s else (thrown (err e), s)
  after_bind portno again (thrown sockoob, s) = (thrown sockoob, s)
  after_bind portno again (thrown (written n), s) = (thrown (written n), s)
  after_bind portno again (running, s) = (running, s)

  unfoldable pub bind_until_success : ℕ → ℕ → Action (Sock os.World) ℕ
  bind_until_success zero portno s = (running, s)
  bind_until_success (suc fuel) portno s =
      after_bind portno (bind_until_success fuel (suc portno)) (bind_port portno s)

  -- The number of the protocol `tcp`.
  abbrev pub tcp_level : Option ℕ → Action (Sock os.World) ℕ
  tcp_level none = throw (
      err
        (record { code = enoprotoopt; operation = "sockinetbuf::tcpnodelay"; specification = [] }))
  tcp_level (some n) = pure n

  unfoldable pub tcpnodelay : Resolver → Action (Sock os.World) Bool
  tcpnodelay net = do
    proto ← tcp_level (net.getprotobyname (codes "tcp"))
    old ← getopt os tcp_nodelay (pos 0 ∷ []) (protocol_level proto)
    pure (not (is_zero (int_in old.0)))

  unfoldable pub set_tcpnodelay : Resolver → Bool → Action (Sock os.World) Bool
  set_tcpnodelay net set = do
    proto ← tcp_level (net.getprotobyname (codes "tcp"))
    old ← getopt os tcp_nodelay (pos 0 ∷ []) (protocol_level proto)
    setopt os tcp_nodelay (of_bool set ∷ []) (protocol_level proto)
    pure (not (is_zero (int_in old.0)))
