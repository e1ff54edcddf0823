-- ===== src/Filelike/Alike.antt =====
-- A `filelikebuf` whose `gend` and `pend` are set against a `sockbuf` without timeouts and without
-- the test for the urgent mark (socket++/filelikebuf.cpp, sockstream.cpp): when two of their calls
-- end alike.
pub mod Io
use cpr.Common.{
  ℕ, ◌≡◌, refl, sym, ap, List, Option, none, some, Bool, true, false, Result, ok, thrown, running,
  Thrown, err, written, sockoob, Action, is_minus_one, follow, pure,
}
use cpr.Sockbuf.State.{Sock, Sockcnt, PutArea}
use cpr.Filelike.State.{Filelikebuf, PutPointers, Partial, continue, surely}

abbrev pub pointers_of : Option PutArea → Option PutPointers
pointers_of none = none
pointers_of (some p) = some (record { pmem = p.pmem; pptr = p.pptr; epptr = some p.epptr })

-- The `filelikebuf` that has the descriptor and the buffers of a `sockbuf`.
abbrev pub of_sock : {W : Type 0} → Sock W → Filelikebuf W
of_sock s = record {
  rep = record { file = s.rep.sock; gend = some s.rep.gend; pend = some s.rep.pend };
  get = s.get;
  put = pointers_of s.put;
  sockname = s.sockname;
  errno = s.errno;
  world = s.world;
}

-- No timeout is set, and no test for the urgent mark.
pub record Plain (rep : Sockcnt) : Type 0 where
  pub no_stmo : is_minus_one rep.stmo ≡ true
  pub no_rtmo : is_minus_one rep.rtmo ≡ true
  pub no_oob : rep.oob ≡ false

-- The same exception, but for the operation that an `err` names.
abbrev pub SameThrown : Thrown → Thrown → Type 0
SameThrown (err e) (err e') = (e.code ≡ e'.code) × (e.specification ≡ e'.specification)
SameThrown (err e) sockoob = ⊥
SameThrown (err e) (written n) = ⊥
SameThrown sockoob x = ⊥
SameThrown (written n) (written m) = n ≡ m
SameThrown (written n) sockoob = ⊥
SameThrown (written n) (err e) = ⊥

module _ {W : Type 0} where
  -- Both calls return the same value, or both throw the same but for the operation's name, or both are
  -- out of fuel, and the objects are still alike. The first is never undefined.
  abbrev pub AlikeOn : {A : Type 0} → Result A → Filelikebuf W → Result A → Sock W → Type 0
  AlikeOn (ok a) f (ok b) s = (a ≡ b) × Plain s.rep × (f ≡ of_sock s)
  AlikeOn (ok a) f (thrown e) s = ⊥
  AlikeOn (ok a) f running s = ⊥
  AlikeOn (thrown e) f (ok b) s = ⊥
  AlikeOn (thrown e) f (thrown e') s = SameThrown e e' × Plain s.rep × (f ≡ of_sock s)
  AlikeOn (thrown e) f running s = ⊥
  AlikeOn running f (ok b) s = ⊥
  AlikeOn running f (thrown e) s = ⊥
  AlikeOn running f running s = Plain s.rep × (f ≡ of_sock s)

  unfoldable pub Alike :
      {A : Type 0} → Option (Result A × Filelikebuf W) → Result A × Sock W → Type 0
  Alike none r = ⊥
  Alike (some (x, f)) (y, s) = AlikeOn x f y s
