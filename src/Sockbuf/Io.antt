-- ===== src/Sockbuf/Io.antt =====
-- The unbuffered calls of `sockbuf` (socket++/sockstream.cpp): waiting, reading and writing, where
-- USE_WINSOCK is not defined. A loop takes `fuel`, the rounds that it may make.
use cpr.Common.{
  ℕ, zero, suc, ◌+◌, List, [], ◌∷◌, Option, none, some, ℤ, pos, Bool, true, false, not, ◌==◌,
  String, Action, sockoob, written, pure, throw, out_of_fuel, gets, ◌>>=◌, ◌>>◌, if◌then◌else◌,
  is_minus_one, is_zero, drop,
}
use cpr.Errno.{etimedout}
use cpr.Os.{Os, Call, SockAddr, Watch, reading, writing, exceptions, siocatmark}
use cpr.Sockbuf.State.{Sock, call, checked, throw_err}

-- The pointer that `select` is given: null for a wait of -1 seconds.
abbrev pub timeval : ℤ → ℤ → Option (ℤ × ℤ)
timeval sec usec = if is_minus_one sec then none else some (sec, usec)

module _ (os : Os) where
  -- The body that the three `is_…` functions share.
  abbrev pub wait_for : String → Watch → ℤ → ℤ → Action (Sock os.World) ℕ
  wait_for operation watch sec usec s =
      checked operation (os.select watch s.rep.sock (timeval sec usec)) s

  unfoldable pub is_readready : ℤ → ℤ → Action (Sock os.World) ℕ
  is_readready = wait_for "sockbuf::is_readready" reading

  unfoldable pub is_writeready : ℤ → ℤ → Action (Sock os.World) ℕ
  is_writeready = wait_for "sockbuf::is_writeready" writing

  unfoldable pub is_exceptionpending : ℤ → ℤ → Action (Sock os.World) ℕ
  is_exceptionpending = wait_for "sockbuf::is_exceptionpending" exceptions

  unfoldable pub atmark : Action (Sock os.World) Bool
  atmark = do
    arg ← λ s. checked "sockbuf::atmark" (os.ioctl s.rep.sock siocatmark (pos 0)) s
    pure (not (is_zero arg))

  -- `if (tmo != -1 && ready (tmo) == 0) throw err (ETIMEDOUT, …)`
  abbrev pub wait_or_throw :
      String → ℤ → (ℤ → Action (Sock os.World) ℕ) → Action (Sock os.World) (Unit {0})
  wait_or_throw operation tmo ready =
      if is_minus_one tmo
      then pure tt
      else (do n ← ready tmo; if n == 0 then throw_err etimedout operation else pure tt)

  -- `if (rep->oob && atmark ()) throw sockoob ()`
  abbrev pub throw_at_mark : Bool → Action (Sock os.World) (Unit {0})
  throw_at_mark false = pure tt
  throw_at_mark true = atmark >>= λ mark. if mark then throw sockoob else pure tt

  -- What `read`, `recv`, `recvfrom` and `recvmsg` do first.
  unfoldable pub before_read : String → Action (Sock os.World) (Unit {0})
  before_read operation = do
    rep ← gets (λ s. s.rep)
    wait_or_throw operation rep.rtmo (λ tmo. is_readready tmo (pos 0))
    throw_at_mark rep.oob

  -- What `write`, `send`, `sendto` and `sendmsg` do first.
  unfoldable pub before_write : String → Action (Sock os.World) (Unit {0})
  before_write operation = do
    rep ← gets (λ s. s.rep)
    wait_or_throw operation rep.stmo (λ tmo. is_writeready tmo (pos 0))

  unfoldable pub read : ℕ → Action (Sock os.World) (List ℕ)
  read len = do before_read "sockbuf::read"; λ s. checked "sockbuf::read" (os.read s.rep.sock len) s

  unfoldable pub recv : ℕ → ℕ → Action (Sock os.World) (List ℕ)
  recv len msgf = do
    before_read "sockbuf::recv"
    λ s. checked "sockbuf::recv" (os.recv s.rep.sock len msgf) s

  -- The second part of the result is what the call leaves in `sa`.
  unfoldable pub recvfrom : ℕ → ℕ → Action (Sock os.World) (List ℕ × SockAddr)
  recvfrom len msgf = do
    before_read "sockbuf::recvfrom"
    λ s. checked "sockbuf::recvfrom" (os.recvfrom s.rep.sock len msgf) s

  unfoldable pub recvmsg : os.Msghdr → ℕ → Action (Sock os.World) (ℕ × os.Msghdr)
  recvmsg msg msgf = do
    before_read "sockbuf::recvmsg"
    λ s. checked "sockbuf::recvmsg" (os.recvmsg s.rep.sock msg msgf) s

  -- `while (len > 0) { … }`: a transfer that fails throws the number of bytes written so far.
  unfoldable pub transmit : (List ℕ → Call os.World ℕ) → ℕ → List ℕ → ℕ → Action (Sock os.World) ℕ
  transmit put zero bs wlen = out_of_fuel
  transmit put (suc fuel) [] wlen = pure wlen
  transmit put (suc fuel) (b ∷ bs) wlen = do
    wval ← call (put (b ∷ bs))
    elim wval [
      | none ↦ throw (written wlen)
      | some n ↦ transmit put fuel (drop n (b ∷ bs)) (wlen + n)
    ]

  unfoldable pub write : ℕ → List ℕ → Action (Sock os.World) ℕ
  write fuel bs = do before_write "sockbuf::write"; λ s. transmit (os.write s.rep.sock) fuel bs 0 s

  unfoldable pub send : ℕ → List ℕ → ℕ → Action (Sock os.World) ℕ
  send fuel bs msgf = do
    before_write "sockbuf::send"
    λ s. transmit (λ rest. os.send s.rep.sock rest msgf) fuel bs 0 s

  unfoldable pub sendto : ℕ → SockAddr → List ℕ → ℕ → Action (Sock os.World) ℕ
  sendto fuel sa bs msgf = do
    before_write "sockbuf::sendto"
    λ s. transmit (λ rest. os.sendto s.rep.sock rest msgf sa) fuel bs 0 s

  unfoldable pub sendmsg : os.Msghdr → ℕ → Action (Sock os.World) ℕ
  sendmsg msg msgf = do
    before_write "sockbuf::sendmsg"
    wlen ← λ s. call (os.sendmsg s.rep.sock msg msgf) s
    elim wlen [ none ↦ throw (written 0) | some n ↦ pure n ]
