-- ===== src/Sockbuf/State.antt =====
-- The state of a `sockbuf` (socket++/sockstream.h): the block `sockcnt` that its copies share, the
-- pointers of its `streambuf`, its name, and with these errno and the operating system.
use cpr.Common.{
  ℕ, List, [], Option, none, some, ℤ, negsuc, Bool, false, String, Action, thrown, ok, err, pure,
  ◌>>=◌,
}
use cpr.Os.{Sys, done, fails, Call}

-- `gend` and `pend` are the ends of the buffers, counted from `eback ()` and `pbase ()`.
pub record Sockcnt : Type 0 where
  pub sock : ℕ
  pub stmo : ℤ
  pub rtmo : ℤ
  pub oob : Bool
  pub gend : ℕ
  pub pend : ℕ

-- The memory at `eback ()`, and `gptr ()` and `egptr ()` counted from there.
pub record GetArea : Type 0 where
  pub gmem : List ℕ
  pub gptr : ℕ
  pub egptr : ℕ

-- The memory at `pbase ()`, and `pptr ()` and `epptr ()` counted from there.
pub record PutArea : Type 0 where
  pub pmem : List ℕ
  pub pptr : ℕ
  pub epptr : ℕ

-- An area is `none` where its pointers are null.
pub record Sock (W : Type 0) : Type 0 where
  pub rep : Sockcnt
  pub get : Option GetArea
  pub put : Option PutArea
  pub sockname : List ℕ
  pub errno : ℕ
  pub world : W

module _ {W : Type 0} where
  abbrev pub settle : {A : Type 0} → Sock W → Sys A × W → Option A × Sock W
  settle s (done a, w) = (some a, record s { world = w })
  settle s (fails e, w) = (none, record s { world = w; errno = e })

  -- A system call; `none` is its -1.
  abbrev pub call : {A : Type 0} → Call W A → Action (Sock W) (Option A)
  call f s = let (r, s') = settle s (f s.world) in (ok r, s')

  -- `throw err (code, operation, sockname)`
  abbrev pub throw_err : {A : Type 0} → ℕ → String → Action (Sock W) A
  throw_err code operation s =
      (thrown (err (record { code = code; operation = operation; specification = s.sockname })), s)

  -- `throw err (errno, operation, sockname)`
  abbrev pub throw_errno : {A : Type 0} → String → Action (Sock W) A
  throw_errno operation s = throw_err s.errno operation s

  abbrev pub or_throw : {A : Type 0} → String → Option A → Action (Sock W) A
  or_throw operation none = throw_errno operation
  or_throw operation (some a) = pure a

  -- `if (::f (...) == -1) throw err (errno, operation, sockname)`
  abbrev pub checked : {A : Type 0} → String → Call W A → Action (Sock W) A
  checked operation f = call f >>= or_throw operation

-- `sockcnt::sockcnt (SOCKET)`; the null `gend` and `pend` are 0 here, and every constructor of
-- `sockbuf` sets them.
abbrev pub sockcnt : ℕ → Sockcnt
sockcnt s = record { sock = s; stmo = negsuc 0; rtmo = negsuc 0; oob = false; gend = 0; pend = 0 }

-- `sockbuf::sockbuf (const sockdesc&)`, with the memory that the two `new` expressions return.
unfoldable pub construct : {W : Type 0} → ℕ → ℕ → List ℕ → List ℕ → ℕ → W → Sock W
construct bufsiz sd gbuf pbuf errno w = record {
  rep = record (sockcnt sd) { gend = bufsiz; pend = bufsiz };
  get = some (record { gmem = gbuf; gptr = bufsiz; egptr = bufsiz });
  put = some (record { pmem = pbuf; pptr = 0; epptr = bufsiz });
  sockname = [];
  errno = errno;
  world = w;
}
