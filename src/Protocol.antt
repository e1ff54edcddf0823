-- ===== src/Protocol.antt =====
-- The base class of the protocols (socket++/protocol.h, socket++/protocol.cpp). `rfc_name ()` is a
-- virtual function of the derived class: its value is a parameter.
pub mod Connect
use cpr.Common.{ℕ, List, [], Action, throw, err, codes, ◌>>=◌}
use cpr.Errno.{eprotonosupport}
use cpr.Os.{Os}
use cpr.Sockbuf.State.{Sock}
use cpr.Inet.{Resolver, localhost, connect_names, connect_service, connect_host}

pub data PName : Type 0 where
  nil tcp udp : PName

unfoldable pub protocol_name : PName → List ℕ
protocol_name nil = codes "nil"
protocol_name tcp = codes "tcp"
protocol_name udp = codes "udp"

module _ (os : Os) (net : Resolver) (rfc_name : List ℕ) where
  -- `if (pn == protocol::nil) throw err (EPROTONOSUPPORT);`
  abbrev pub unless_nil :
      PName → Action (Sock os.World) (Unit {0}) → Action (Sock os.World) (Unit {0})
  unless_nil nil m =
      throw (err (record { code = eprotonosupport; operation = ""; specification = [] }))
  unless_nil tcp m = m
  unless_nil udp m = m

  unfoldable pub connect_local : PName → Action (Sock os.World) (Unit {0})
  connect_local pn =
      unless_nil pn
        (do host ← localhost os net; connect_names os net host rfc_name (protocol_name pn))

  unfoldable pub connect_to_number : PName → ℕ → Action (Sock os.World) (Unit {0})
  connect_to_number pn addr =
      unless_nil pn (connect_service os net addr rfc_name (protocol_name pn))

  unfoldable pub connect_to_host : PName → List ℕ → Action (Sock os.World) (Unit {0})
  connect_to_host pn host = unless_nil pn (connect_names os net host rfc_name (protocol_name pn))

  unfoldable pub connect_to_port : PName → List ℕ → ℕ → Action (Sock os.World) (Unit {0})
  connect_to_port pn host portno = unless_nil pn (connect_host os net host portno)
