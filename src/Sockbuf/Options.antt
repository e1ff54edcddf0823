-- ===== src/Sockbuf/Options.antt =====
-- The options of a `sockbuf` (socket++/sockstream.cpp): what `getsockopt`, `setsockopt` and `ioctl`
-- reach, where neither WIN32 nor __CYGWIN__ is defined, and the flags that the object keeps itself.
pub mod Flags
use cpr.Common.{
  ℕ, ◌+◌, ◌%◌, ◌*◌, ◌-◌, ◌^◌, List, [], ◌∷◌, ℤ, pos, negsuc, Bool, not, Action, ok, pure, ◌>>=◌,
  ◌>>◌, if◌then◌else◌, is_zero, is_negative, of_bool,
}
use cpr.Os.{
  Os, SockOption, so_debug, so_reuseaddr, so_keepalive, so_dontroute, so_broadcast, so_linger,
  so_oobinline, so_sndbuf, so_rcvbuf, so_error, so_type, Level, sol_socket, Request, siocgpgrp,
  siocspgrp, fioclex, fionclex, fionread, fionbio, fioasync,
}
use cpr.Sockbuf.State.{Sock, Sockcnt, checked}
use cpr.Sockbuf.Buffer.{showmanyc}

-- `-1` for every negative timeout.
abbrev pub timeout : ℤ → ℤ
timeout wp = if is_negative wp then negsuc 0 else wp

module _ {W : Type 0} where
  unfoldable pub sendtimeout : ℤ → Action (Sock W) ℤ
  sendtimeout wp s = (ok s.rep.stmo, record s { rep = record s.rep { stmo = timeout wp } })

  unfoldable pub recvtimeout : ℤ → Action (Sock W) ℤ
  recvtimeout wp s = (ok s.rep.rtmo, record s { rep = record s.rep { rtmo = timeout wp } })

  unfoldable pub oob : Bool → Action (Sock W) Bool
  oob b s = (ok s.rep.oob, record s { rep = record s.rep { oob = b } })

-- The int in a buffer that holds one.
abbrev pub int_in : List ℤ → ℤ
int_in [] = pos 0
int_in (n ∷ ns) = n

-- `socklinger`: whether to linger, and for how many seconds.
abbrev pub SockLinger : Type 0
SockLinger = ℤ × ℤ

abbrev pub linger_in : List ℤ → SockLinger
linger_in [] = (pos 0, pos 0)
linger_in (a ∷ ns) = (a, int_in ns)

-- An `int` as it stands in memory, and a `long` of which an `int` is the lower half.
abbrev pub low_half : ℤ → ℕ
low_half (pos n) = n % 2 ^ 32
low_half (negsuc n) = 2 ^ 32 - 1 - n % 2 ^ 32

abbrev pub long_of : ℕ → ℤ → ℕ
long_of upper n = (upper % 2 ^ 32) * 2 ^ 32 + low_half n

module _ (os : Os) where
  -- The buffer behind the call, and its length.
  unfoldable pub getopt : SockOption → List ℤ → Level → Action (Sock os.World) (List ℤ × ℕ)
  getopt op buf level s = checked "sockbuf::getopt" (os.getsockopt s.rep.sock level op buf) s

  unfoldable pub setopt : SockOption → List ℤ → Level → Action (Sock os.World) (Unit {0})
  setopt op buf level s = checked "sockbuf::setopt" (os.setsockopt s.rep.sock level op buf) s

  -- `int old = 0; getopt (op, &old, sizeof (old)); return old;`
  abbrev pub get_int : SockOption → Action (Sock os.World) ℤ
  get_int op = do old ← getopt op (pos 0 ∷ []) sol_socket; pure (int_in old.0)

  -- The same with `setopt (op, &opt, sizeof (opt));` behind it.
  abbrev pub swap_int : SockOption → ℤ → Action (Sock os.World) ℤ
  swap_int op opt = do old ← get_int op; setopt op (opt ∷ []) sol_socket; pure old

  abbrev pub get_flag : SockOption → Action (Sock os.World) Bool
  get_flag op = do old ← get_int op; pure (not (is_zero old))

  abbrev pub swap_flag : SockOption → Bool → Action (Sock os.World) Bool
  swap_flag op set = do old ← swap_int op (of_bool set); pure (not (is_zero old))

  unfoldable pub gettype : Action (Sock os.World) ℤ
  gettype = get_int so_type

  unfoldable pub clearerror : Action (Sock os.World) ℤ
  clearerror = get_int so_error

  unfoldable pub debug : Action (Sock os.World) Bool
  debug = get_flag so_debug

  unfoldable pub set_debug : Bool → Action (Sock os.World) Bool
  set_debug = swap_flag so_debug

  unfoldable pub reuseaddr : Action (Sock os.World) Bool
  reuseaddr = get_flag so_reuseaddr

  unfoldable pub set_reuseaddr : Bool → Action (Sock os.World) Bool
  set_reuseaddr = swap_flag so_reuseaddr

  unfoldable pub keepalive : Action (Sock os.World) Bool
  keepalive = get_flag so_keepalive

  unfoldable pub set_keepalive : Bool → Action (Sock os.World) Bool
  set_keepalive = swap_flag so_keepalive

  unfoldable pub dontroute : Action (Sock os.World) Bool
  dontroute = get_flag so_dontroute

  unfoldable pub set_dontroute : Bool → Action (Sock os.World) Bool
  set_dontroute = swap_flag so_dontroute

  unfoldable pub broadcast : Action (Sock os.World) Bool
  broadcast = get_flag so_broadcast

  unfoldable pub set_broadcast : Bool → Action (Sock os.World) Bool
  set_broadcast = swap_flag so_broadcast

  unfoldable pub oobinline : Action (Sock os.World) Bool
  oobinline = get_flag so_oobinline

  unfoldable pub set_oobinline : Bool → Action (Sock os.World) Bool
  set_oobinline = swap_flag so_oobinline

  unfoldable pub linger : Action (Sock os.World) SockLinger
  linger = do old ← getopt so_linger (pos 0 ∷ pos 0 ∷ []) sol_socket; pure (linger_in old.0)

  unfoldable pub set_linger : SockLinger → Action (Sock os.World) SockLinger
  set_linger opt = do
    old ← getopt so_linger (pos 0 ∷ pos 0 ∷ []) sol_socket
    setopt so_linger (opt.0 ∷ opt.1 ∷ []) sol_socket
    pure (linger_in old.0)

  unfoldable pub sendbufsz : Action (Sock os.World) ℤ
  sendbufsz = get_int so_sndbuf

  unfoldable pub set_sendbufsz : ℤ → Action (Sock os.World) ℤ
  set_sendbufsz = swap_int so_sndbuf

  unfoldable pub recvbufsz : Action (Sock os.World) ℤ
  recvbufsz = get_int so_rcvbuf

  unfoldable pub set_recvbufsz : ℤ → Action (Sock os.World) ℤ
  set_recvbufsz = swap_int so_rcvbuf

  unfoldable pub pgrp : Action (Sock os.World) ℤ
  pgrp s = checked "sockbuf::pgrp" (os.ioctl s.rep.sock siocgpgrp (pos 0)) s

  unfoldable pub set_pgrp : ℤ → Action (Sock os.World) ℤ
  set_pgrp new_pgrp = do
    old ← pgrp
    λ s. checked "sockbuf::pgrp" (os.ioctl s.rep.sock siocspgrp new_pgrp) s
    pure old

  unfoldable pub closeonexec : Bool → Action (Sock os.World) (Unit {0})
  closeonexec set = do
    λ s.
        checked "sockbuf::closeonexec"
          (os.ioctl s.rep.sock (if set then fioclex else fionclex) (pos 0)) s
    pure tt

  -- The value of a `long` as an unsigned number of 64 bits, `upper` being what its upper half held.
  unfoldable pub nread : ℕ → Action (Sock os.World) ℕ
  nread upper = do
    arg ← λ s. checked "sockbuf::nread" (os.ioctl s.rep.sock fionread (pos 0)) s
    pure (long_of upper arg)

  unfoldable pub howmanyc : ℕ → Action (Sock os.World) ℕ
  howmanyc upper s = (nread upper >>= λ n. pure ((showmanyc s + n) % 2 ^ 64)) s

  unfoldable pub nonblock : Bool → Action (Sock os.World) (Unit {0})
  nonblock set = do
    λ s. checked "sockbuf::nonblock" (os.ioctl s.rep.sock fionbio (of_bool set)) s
    pure tt

  unfoldable pub async : Bool → Action (Sock os.World) (Unit {0})
  async set = do
    λ s. checked "sockbuf::async" (os.ioctl s.rep.sock fioasync (of_bool set)) s
    pure tt
