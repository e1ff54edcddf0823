-- ===== src/Os.antt =====
-- The system calls that socket++ makes (ossock.h includes their headers). The operating system is
-- not part of the repository: it is the parameter `Os`, one function for each call, over a state
-- `World` of its own. `fails e` is a call that returns -1 and sets errno to `e`.
pub mod Laws
use cpr.Common.{ℕ, ℤ, List, Option, Bool}

pub data Sys (A : Type 0) : Type 0 where
  done : A → Sys A
  fails : ℕ → Sys A

-- `sockaddr_in`, with port and address as the numbers that stand in it (network byte order).
pub record InetAddr : Type 0 where
  pub sin_family : ℕ
  pub sin_port : ℕ
  pub sin_addr : ℕ

-- What `sockAddr::addr ()` points to: a `sockaddr_in`, or the path of a `sockaddr_un`.
pub data SockAddr : Type 0 where
  inet : InetAddr → SockAddr
  unix : List ℕ → SockAddr

pub data Watch : Type 0 where
  reading writing exceptions : Watch

pub data ShutHow : Type 0 where
  shut_read shut_write shut_readwrite : ShutHow

pub data SockOption : Type 0 where
  so_debug so_reuseaddr so_keepalive so_dontroute so_broadcast so_linger : SockOption
  so_oobinline so_sndbuf so_rcvbuf so_error so_type tcp_nodelay : SockOption

-- `SOL_SOCKET`, or a protocol's number.
pub data Level : Type 0 where
  sol_socket : Level
  protocol_level : ℕ → Level

pub data Request : Type 0 where
  siocatmark siocgpgrp siocspgrp fioclex fionclex fionread fionbio fioasync : Request

abbrev pub Call : Type 0 → Type 0 → Type 0
Call W A = W → Sys A × W

pub record Os : Type 1 where
  pub World : Type 0
  pub Msghdr : Type 0
  pub socket : ℕ → ℕ → ℕ → Call World ℕ
  pub close : ℕ → Call World (Unit {0})
  pub bind : ℕ → SockAddr → Call World (Unit {0})
  pub connect : ℕ → SockAddr → Call World (Unit {0})
  pub listen : ℕ → ℕ → Call World (Unit {0})
  pub accept : ℕ → Call World ℕ
  -- At most the given number of bytes, and no bytes at the end of the stream.
  pub read : ℕ → ℕ → Call World (List ℕ)
  pub recv : ℕ → ℕ → ℕ → Call World (List ℕ)
  pub recvfrom : ℕ → ℕ → ℕ → Call World (List ℕ × SockAddr)
  pub recvmsg : ℕ → Msghdr → ℕ → Call World (ℕ × Msghdr)
  -- The number of bytes that were accepted.
  pub write : ℕ → List ℕ → Call World ℕ
  pub send : ℕ → List ℕ → ℕ → Call World ℕ
  pub sendto : ℕ → List ℕ → ℕ → SockAddr → Call World ℕ
  pub sendmsg : ℕ → Msghdr → ℕ → Call World ℕ
  -- `none` is a null `timeval`, which waits for ever.
  pub select : Watch → ℕ → Option (ℤ × ℤ) → Call World ℕ
  pub shutdown : ℕ → ShutHow → Call World (Unit {0})
  -- The option buffer as its ints, before and after, and its size in bytes after.
  pub getsockopt : ℕ → Level → SockOption → List ℤ → Call World (List ℤ × ℕ)
  pub setsockopt : ℕ → Level → SockOption → List ℤ → Call World (Unit {0})
  -- The int that the last argument points to, after the call.
  pub ioctl : ℕ → Request → ℤ → Call World ℤ
  pub getsockname : ℕ → Call World SockAddr
  pub getpeername : ℕ → Call World SockAddr
