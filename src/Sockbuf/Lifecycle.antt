-- ===== src/Sockbuf/Lifecycle.antt =====
-- How a `sockbuf` begins and ends (socket++/sockstream.cpp): its constructors and its destructor, the
-- calls that give it an address and a peer, and `shutdown`.
use cpr.Common.{
  Bool, ℕ, List, [], none, some, ◌==◌, Action, Result, ok, thrown, err, pure, modify, ◌>>=◌, ◌>>◌,
  if◌then◌else◌, codes, Err,
}
use cpr.Errno.{einval}
use cpr.Os.{Os, Sys, done, fails, SockAddr, ShutHow, shut_read, shut_write, shut_readwrite}
use cpr.Sockbuf.State.{Sock, construct, call, checked}
use cpr.Sockbuf.Buffer.{overflow, sync}

-- The copy constructor. It leaves the `streambuf` without buffers, and the name empty.
unfoldable pub copy_construct : {W : Type 0} → Sock W → Sock W
copy_construct s = record s { get = none; put = none; sockname = [] }

unfoldable pub sd : {W : Type 0} → Sock W → ℕ
sd s = s.rep.sock

-- `oob ()`
unfoldable pub get_oob : {W : Type 0} → Sock W → Bool
get_oob s = s.rep.oob

unfoldable pub setname : {W : Type 0} → List ℕ → Sock W → Sock W
setname name s = record s { sockname = name }

unfoldable pub getname : {W : Type 0} → Sock W → List ℕ
getname s = s.sockname

abbrev pub creation_failed : ℕ → Err
creation_failed e = record {
  code = e;
  operation = "sockbuf::sockbuf";
  specification = codes "socket creation failed";
}

module _ (os : Os) where
  -- `sockbuf (domain, st, proto)` with what `::socket` has returned, as `construct` otherwise.
  abbrev pub built :
      ℕ → List ℕ → List ℕ → ℕ → Sys ℕ × os.World → Result (Sock os.World) × (ℕ × os.World)
  built bufsiz gbuf pbuf errno (done sd, w) =
      (ok (construct bufsiz sd gbuf pbuf errno w), (errno, w))
  built bufsiz gbuf pbuf errno (fails e, w) = (thrown (err (creation_failed e)), (e, w))

  unfoldable pub open_socket :
      ℕ → List ℕ → List ℕ → ℕ → ℕ → ℕ → ℕ → os.World → Result (Sock os.World) × (ℕ × os.World)
  open_socket bufsiz gbuf pbuf domain st proto errno w =
      built bufsiz gbuf pbuf errno (os.socket domain st proto w)

  -- `delete [] pbase (); delete [] eback (); close (rep->sock)`
  abbrev pub release : Action (Sock os.World) (Unit {0})
  release s =
      checked "sockbuf::~sockbuf" (os.close s.rep.sock) (record s { get = none; put = none })

  -- The destructor, where `use_count` objects share `rep`. What it throws ends the program.
  unfoldable pub destroy : ℕ → ℕ → Action (Sock os.World) (Unit {0})
  destroy fuel use_count = overflow os fuel none >> (if use_count == 1 then release else pure tt)

  unfoldable pub pubsync : ℕ → Action (Sock os.World) ℕ
  pubsync fuel = sync os fuel

  unfoldable pub bind : SockAddr → Action (Sock os.World) (Unit {0})
  bind sa s = checked "sockbuf::bind" (os.bind s.rep.sock sa) s

  unfoldable pub connect : SockAddr → Action (Sock os.World) (Unit {0})
  connect sa s = checked "sockbuf::connect" (os.connect s.rep.sock sa) s

  unfoldable pub listen : ℕ → Action (Sock os.World) (Unit {0})
  listen num s = checked "sockbuf::listen" (os.listen s.rep.sock num) s

  -- What `accept` throws: with errno `EINVAL` its own hint, else the name.
  abbrev pub accept_err : Sock os.World → Err
  accept_err s = record {
    code = s.errno;
    operation = "sockbuf::accept";
    specification =
        if s.errno == einval then codes "did you forget to call listen()?" else s.sockname;
  }

  unfoldable pub accept : Action (Sock os.World) ℕ
  accept = do
    socfd ← λ s. call (os.accept s.rep.sock) s
    elim socfd [ none ↦ (λ s. (thrown (err (accept_err s)), s)) | some sd ↦ pure sd ]

  -- `delete [] eback (); setg (0, 0, 0);` and the same of the put area.
  abbrev pub drop_get : Sock os.World → Sock os.World
  drop_get s = record s { get = none }

  abbrev pub drop_put : Sock os.World → Sock os.World
  drop_put s = record s { put = none }

  abbrev pub shut : ShutHow → Action (Sock os.World) (Unit {0})
  shut sh s = checked "sockbuf::shutdown" (os.shutdown s.rep.sock sh) s

  unfoldable pub shutdown : ShutHow → Action (Sock os.World) (Unit {0})
  shutdown shut_read = modify drop_get >> shut shut_read
  shutdown shut_write = modify drop_put >> shut shut_write
  shutdown shut_readwrite =
      (modify drop_get >> shut shut_read)
      >> (modify drop_put >> shut shut_write)
      >> shut shut_readwrite
