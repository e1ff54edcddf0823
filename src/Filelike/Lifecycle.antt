-- ===== src/Filelike/Lifecycle.antt =====
-- How a `filelikebuf` is copied, named and destroyed (socket++/filelikebuf.cpp, filelikebuf.h).
use cpr.Common.{ℕ, List, none, Action, pure, ◌==◌, if◌then◌else◌}
use cpr.Os.{Os}
use cpr.Filelike.State.{Filelikebuf, Partial, surely, ◌>>◌, checked, file_name}
use cpr.Filelike.Buffer.{overflow}

-- The copy constructor, with `fd` read as the descriptor in `rep`. It leaves the `streambuf` without
-- buffers.
unfoldable pub copy_construct : {W : Type 0} → Filelikebuf W → Filelikebuf W
copy_construct s = record s { get = none; put = none; sockname = file_name s.rep.file }

unfoldable pub fd : {W : Type 0} → Filelikebuf W → ℕ
fd s = s.rep.file

unfoldable pub setname : {W : Type 0} → List ℕ → Filelikebuf W → Filelikebuf W
setname name s = record s { sockname = name }

unfoldable pub getname : {W : Type 0} → Filelikebuf W → List ℕ
getname s = s.sockname

module _ (os : Os) where
  -- `delete [] pbase (); delete [] eback (); close (rep->file)`
  abbrev pub release : Action (Filelikebuf os.World) (Unit {0})
  release s =
      checked "filelikebuf::~filelikebuf" (os.close s.rep.file)
        (record s { get = none; put = none })

  -- The destructor, where `use_count` objects share `rep`.
  unfoldable pub destroy : ℕ → ℕ → Partial (Filelikebuf os.World) (Unit {0})
  destroy fuel use_count =
      overflow os fuel none >> (if use_count == 1 then surely release else surely (pure tt))
