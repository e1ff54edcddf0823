-- ===== src/Filelike/State.antt =====
-- The state of a `filelikebuf` (socket++/filelikebuf.h): the block `filecnt` that its copies share,
-- the pointers of its `streambuf`, its name, and with these errno and the operating system.
use cpr.Common.{
  ℕ, List, Option, none, some, String, Result, ok, thrown, running, Action, err, ◌++◌, codes,
  decimal,
}
use cpr.Os.{Sys, done, fails, Call}
use cpr.Sockbuf.State.{GetArea}

-- `gend` and `pend` are the ends of the buffers, counted from `eback ()` and `pbase ()`, or `none`
-- where the pointer is null.
pub record Filecnt : Type 0 where
  pub file : ℕ
  pub gend : Option ℕ
  pub pend : Option ℕ

-- The memory at `pbase ()`, and `pptr ()` and `epptr ()` counted from there; `epptr ()` may be null.
pub record PutPointers : Type 0 where
  pub pmem : List ℕ
  pub pptr : ℕ
  pub epptr : Option ℕ

pub record Filelikebuf (W : Type 0) : Type 0 where
  pub rep : Filecnt
  pub get : Option GetArea
  pub put : Option PutPointers
  pub sockname : List ℕ
  pub errno : ℕ
  pub world : W

-- An action that may also be undefined: `none` is arithmetic or an order on a null pointer and one
-- that is not, to which C++ gives no meaning.
abbrev pub Partial : Type 0 → Type 0 → Type 0
Partial S A = S → Option (Result A × S)

abbrev pub undefined : {S A : Type 0} → Partial S A
undefined s = none

abbrev pub surely : {S A : Type 0} → Action S A → Partial S A
surely f s = some (f s)

-- The rest of a block, once the first part has ended.
abbrev pub continue :
    {S A B : Type 0} → (A → Partial S B) → Option (Result A × S) → Option (Result B × S)
continue k none = none
continue k (some (ok a, s)) = k a s
continue k (some (thrown e, s)) = some (thrown e, s)
continue k (some (running, s)) = some (running, s)

infixl 5 ◌>>=◌ ◌>>◌
abbrev pub ◌>>=◌ : {S A B : Type 0} → Partial S A → (A → Partial S B) → Partial S B
◌>>=◌ m k s = continue k (m s)

abbrev pub ◌>>◌ : {S A B : Type 0} → Partial S A → Partial S B → Partial S B
◌>>◌ m k s = continue (λ _. k) (m s)

module _ {W : Type 0} where
  -- `throw err (errno, operation, sockname)` after a call that has failed.
  abbrev pub settled : {A : Type 0} → String → Filelikebuf W → Sys A × W → Result A × Filelikebuf W
  settled operation s (done a, w) = (ok a, record s { world = w })
  settled operation s (fails e, w) = (
    thrown (err (record { code = e; operation = operation; specification = s.sockname })),
    record s { world = w; errno = e },
  )

  abbrev pub checked : {A : Type 0} → String → Call W A → Action (Filelikebuf W) A
  checked operation f s = settled operation s (f s.world)

abbrev pub file_name : ℕ → List ℕ
file_name fd = codes "filelikebuf " ++ decimal fd

-- `filecnt::filecnt (filedesc)`
unfoldable pub filecnt : ℕ → Filecnt
filecnt s = record { file = s; gend = none; pend = none }

-- `filelikebuf (const filedesc&)`, with the memory that the two `new` expressions return, and with
-- `std::make_shared<filedesc>` read as the `make_shared<filecnt> (fd)` that would compile.
unfoldable pub construct : {W : Type 0} → ℕ → ℕ → List ℕ → List ℕ → ℕ → W → Filelikebuf W
unfolding filecnt
construct bufsiz fd gbuf pbuf errno w = record {
  rep = filecnt fd;
  get = some (record { gmem = gbuf; gptr = bufsiz; egptr = bufsiz });
  put = some (record { pmem = pbuf; pptr = 0; epptr = some bufsiz });
  sockname = file_name fd;
  errno = errno;
  world = w;
}
