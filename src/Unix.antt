-- ===== src/Unix.antt =====
-- Unix-domain sockets (socket++/sockunix.h, socket++/sockunix.cpp). A path is short enough for
-- `sun_path`: what `strcpy` does with a longer one is undefined.
use cpr.Common.{ℕ, List, Result, Action}
use cpr.Os.{Os, SockAddr, unix}
use cpr.Sockbuf.State.{Sock}
use cpr.Sockbuf.Lifecycle

-- `AF_UNIX`
abbrev pub af_unix : ℕ
af_unix = 1

-- The address that `sockunixaddr (path)` holds.
abbrev pub unix_address : List ℕ → SockAddr
unix_address path = unix path

-- The copy constructor of `sockunixaddr`, whose `sun_path` is given.
unfoldable pub copy_unix_address : List ℕ → SockAddr
copy_unix_address sun_path = unix sun_path

module _ (os : Os) where
  -- `sockunixbuf (ty, proto)`
  unfoldable pub open_unix :
      ℕ → List ℕ → List ℕ → ℕ → ℕ → ℕ → os.World → Result (Sock os.World) × (ℕ × os.World)
  open_unix bufsiz gbuf pbuf ty proto errno w =
      Lifecycle.open_socket os bufsiz gbuf pbuf af_unix ty proto errno w

  -- `bind (sockAddr&)` and `connect (sockAddr&)`.
  unfoldable pub bind_addr : SockAddr → Action (Sock os.World) (Unit {0})
  bind_addr sa = Lifecycle.bind os sa

  unfoldable pub connect_addr : SockAddr → Action (Sock os.World) (Unit {0})
  connect_addr sa = Lifecycle.connect os sa

  unfoldable pub bind_path : List ℕ → Action (Sock os.World) (Unit {0})
  bind_path path = bind_addr (unix_address path)

  unfoldable pub connect_path : List ℕ → Action (Sock os.World) (Unit {0})
  connect_path path = connect_addr (unix_address path)
