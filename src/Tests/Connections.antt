-- ===== src/Tests/Connections.antt =====
-- The witness of the theorem about the `connect` functions of a protocol.
use cpr.Os.{SockAddr, fails}
use cpr.Common.{◌≡◌, ℕ, some, refl, codes}
use cpr.Inet.{Resolver, af_inet, inaddr_none}
use cpr.Protocol.{
  tcp, protocol_name, connect_local, connect_to_number, connect_to_host, connect_to_port,
}
use cpr.Protocol.Connect.{
  Peers, Connects, AtNumber, AtNames, AtPort, AtOwnHost, connect_calls-Connects,
}
use cpr.Tests.Demo.{demo, Wire}
use cpr.Tests.Buffers.{sock}

connect_never_fails :
    (sa : SockAddr) (w : Wire) (e : ℕ)
    → (demo.connect 3 sa w).0 ≡ fails e
    → (demo.connect 3 sa w).1.peer ≡ w.peer
connect_never_fails sa w e d = cc

abbrev demo_peers : Peers demo 3
demo_peers = record {
  peer = λ w. w.peer;
  connect_done = λ sa w e. refl;
  connect_fails = connect_never_fails;
  getsockname_keeps = λ w. refl;
}

-- Every host is 127.0.0.1, and every service has the port 25.
abbrev one_host : Resolver
one_host = record {
  inet_addr = λ name. inaddr_none;
  gethostbyname = λ name. some (16777343, af_inet);
  gethostbyaddr = λ addr family. some (some (codes "here"));
  gethostname = some (codes "here");
  getservbyname = λ sn pn. some 6400;
  getprotobyname = λ pn. some 6;
}

connect_calls-Connects_example :
    Connects demo 3 demo_peers one_host tcp
      (AtOwnHost demo 3 demo_peers one_host sock (codes "smtp") (protocol_name tcp))
      sock
      (connect_local demo one_host (codes "smtp") tcp sock)
    × Connects demo 3 demo_peers one_host tcp
        (AtNumber one_host 5 (codes "smtp") (protocol_name tcp))
        sock
        (connect_to_number demo one_host (codes "smtp") tcp 5 sock)
    × Connects demo 3 demo_peers one_host tcp
        (AtNames one_host (codes "there") (codes "smtp") (protocol_name tcp))
        sock
        (connect_to_host demo one_host (codes "smtp") tcp (codes "there") sock)
    × Connects demo 3 demo_peers one_host tcp
        (AtPort one_host (codes "there") 2525)
        sock
        (connect_to_port demo one_host (codes "smtp") tcp (codes "there") 2525 sock)
connect_calls-Connects_example =
    connect_calls-Connects demo 3 demo_peers one_host (codes "smtp") (codes "there") tcp 5 2525 sock
      refl
