-- ===== src/Ftp/Transfer.antt =====
-- The transfer of files over a data connection (socket++/ftp.cpp). A `sockbuf` that is a local variable
-- stands beside the client while its block runs, and is destroyed at the end of the block, also by an
-- exception. `chunks` is what `sgetn` delivers of a local file until it returns 0.
use cpr.Common.{
  append_to, ℕ, zero, suc, List, [], ◌∷◌, ◌++◌, Option, none, some, Bool, false, leb, Action,
  Result, ok, thrown, running, pure, out_of_fuel, modify, ◌>>=◌, ◌>>◌, if◌then◌else◌, codes,
  is_minus_one, to_int,
}
use cpr.Os.{Os}
use cpr.Sockbuf.State.{Sock, construct}
use cpr.Sockbuf.Buffer.{xsputn, xsgetn}
use cpr.Sockbuf.Lifecycle.{open_socket, destroy, listen, accept}
use cpr.Inet.{Resolver, af_inet, bind_until_success, localaddr}
use cpr.Ftp.{Ftp, rca_error, useraddr, send_cmd, get_response}

-- Where the received text goes: to the client's output, to the local file, or to a stream that is
-- not open.
pub data Sink : Type 0 where
  to_output to_file nowhere : Sink

module _ {W : Type 0} where
  -- The system and errno are those of the client.
  abbrev pub share : Ftp W → Sock W → Sock W
  share s c = record c { world = s.buf.world; errno = s.buf.errno }

  abbrev pub give_back : Sock W → Ftp W → Ftp W
  give_back c s = record s { buf = record s.buf { world = c.world; errno = c.errno } }

  abbrev pub settle_local : {A : Type 0} → Ftp W → Result A × Sock W → Result A × (Sock W × Ftp W)
  settle_local s (r, c) = (r, (c, give_back c s))

  abbrev pub on_local : {A : Type 0} → Action (Sock W) A → Action (Sock W × Ftp W) A
  on_local m (c, s) = settle_local s (m (share s c))

  abbrev pub settle_client : {A : Type 0} → Sock W → Result A × Ftp W → Result A × (Sock W × Ftp W)
  settle_client c (r, s) = (r, (c, s))

  abbrev pub on_client : {A : Type 0} → Action (Ftp W) A → Action (Sock W × Ftp W) A
  on_client m (c, s) = settle_client c (m s)

  unfoldable pub write_to : Sink → List ℕ → Ftp W → Ftp W
  write_to to_output xs s = record s { output = append_to xs s.output }
  write_to to_file xs s = record s { file = s.file ++ xs }
  write_to nowhere xs s = s

module _ (os : Os) (fuel : ℕ) (net : Resolver) where
  -- The destructor, behind a block that has ended with `r`.
  abbrev pub destroyed :
      {A : Type 0}
      → Result A
      → Result (Unit {0}) × (Sock os.World × Ftp os.World)
      → Result A × Ftp os.World
  destroyed r (ok _, (c, s)) = (r, s)
  destroyed r (thrown e, (c, s)) = (thrown e, s)
  destroyed r (running, (c, s)) = (running, s)

  abbrev pub end_scope :
      {A : Type 0} → Result A × (Sock os.World × Ftp os.World) → Result A × Ftp os.World
  end_scope (ok a, x) = destroyed (ok a) (on_local (destroy os fuel 1) x)
  end_scope (thrown e, x) = destroyed (thrown e) (on_local (destroy os fuel 1) x)
  end_scope (running, (c, s)) = (running, s)

  -- A block with the local variable `c`.
  abbrev pub with_local :
      {A : Type 0}
      → Sock os.World
      → Action (Sock os.World × Ftp os.World) A
      → Action (Ftp os.World) A
  with_local c m s = end_scope (m (c, s))

  -- `while ((rdsz = c.sgetn (buf, 1024)) != EOF) o->write (buf, rdsz);` The count that `sgetn` returns
  -- is a `long`, `rdsz` an `int`, and `EOF` is -1.
  unfoldable pub receive_chunks : ℕ → Sink → Action (Sock os.World × Ftp os.World) (Unit {0})
  receive_chunks zero sink = out_of_fuel
  receive_chunks (suc rounds) sink = do
    (xs, rdsz) ← on_local (xsgetn os fuel 1024)
    if is_minus_one (to_int rdsz)
        then pure tt
        else (do on_client (modify (write_to sink xs)); receive_chunks rounds sink)

  -- The loop that sends; a short write is only reported on `std::cerr`.
  unfoldable pub send_chunks : List (List ℕ) → Action (Sock os.World × Ftp os.World) (Unit {0})
  send_chunks [] = pure tt
  send_chunks (chunk ∷ chunks) = on_local (xsputn os fuel fuel chunk) >> send_chunks chunks

  module _ (bufsiz : ℕ) (gbuf pbuf : List ℕ) where
    -- `sockbuf c = sb.accept ();` and the block behind it.
    abbrev pub with_accepted :
        Action (Sock os.World × Ftp os.World) (Unit {0})
        → Action (Sock os.World × Ftp os.World) (Unit {0})
    with_accepted m = do
      sd ← on_local (accept os)
      on_client (λ s. with_local (construct bufsiz sd gbuf pbuf s.buf.errno s.buf.world) m s)

    abbrev pub transfer :
        Option Sink → Option (List (List ℕ)) → Action (Sock os.World × Ftp os.World) (Unit {0})
    transfer (some sink) source = with_accepted (receive_chunks fuel sink)
    transfer none (some chunks) = with_accepted (send_chunks chunks)
    transfer none none = pure tt

    -- The block of `ftpdata` behind the construction of `sb`.
    unfoldable pub data_block :
        ℕ
        → Option (List (List ℕ))
        → Option Sink
        → List ℕ
        → Option (List ℕ)
        → Action (Sock os.World × Ftp os.World) ℕ
    data_block portno source sink cmd arg = do
      on_local (bind_until_success os fuel portno)
      sa ← on_local (localaddr os)
      on_client (useraddr os fuel net sa)
      on_local (listen os 1)
      code ← on_client (send_cmd os fuel cmd arg)
      if leb rca_error code
          then pure rca_error
          else transfer sink source >> on_client (get_response os fuel)

    -- The block with what the construction of `sb` returns; 1 is `SOCK_STREAM`.
    abbrev pub begin :
        {A : Type 0}
        → Action (Sock os.World × Ftp os.World) A
        → Ftp os.World
        → Result (Sock os.World) × (ℕ × os.World)
        → Result A × Ftp os.World
    begin m s (ok sb, (e, w)) =
        with_local sb m (record s { buf = record s.buf { world = w; errno = e } })
    begin m s (thrown x, (e, w)) =
        (thrown x, record s { buf = record s.buf { world = w; errno = e } })
    begin m s (running, (e, w)) =
        (running, record s { buf = record s.buf { world = w; errno = e } })

    unfoldable pub ftpdata :
        ℕ
        → Option (List (List ℕ))
        → Option Sink
        → List ℕ
        → Option (List ℕ)
        → Action (Ftp os.World) ℕ
    ftpdata portno source sink cmd arg s =
        begin (data_block portno source sink cmd arg) s
          (open_socket os bufsiz gbuf pbuf af_inet 1 0 s.buf.errno s.buf.world)

    -- The output, where there is one.
    abbrev pub output_sink : Option (List ℕ) → Option Sink
    output_sink none = none
    output_sink (some xs) = some to_output

    unfoldable pub list : Option (List ℕ) → Bool → Action (Ftp os.World) ℕ
    list rpath justnames s =
        ftpdata 10000 none (output_sink s.output) (if justnames then codes "NLST" else codes "LIST")
          rpath s

    -- `std::ofstream f (lpath);`, which empties the file.
    abbrev pub open_file : Ftp os.World → Ftp os.World
    open_file s = record s { file = [] }

    -- With two null pointers, for which the source is undefined, no file is open.
    unfoldable pub getfile : Option (List ℕ) → Option (List ℕ) → Action (Ftp os.World) ℕ
    getfile none none = list none false >> ftpdata 10000 none (some nowhere) (codes "RETR") none
    getfile none (some lpath) = do
      list none false
      modify open_file
      ftpdata 10000 none (some to_file) (codes "RETR") none
    getfile (some rpath) lpath = do
      modify open_file
      ftpdata 10000 none (some to_file) (codes "RETR") (some rpath)

    -- `putfile (lpath, rpath)`, with what the file `lpath` holds.
    unfoldable pub putfile :
        Option (List ℕ) → Option (List ℕ) → List (List ℕ) → Action (Ftp os.World) ℕ
    putfile none rpath chunks = pure rca_error
    putfile (some lpath) none chunks = ftpdata 10000 (some chunks) none (codes "STOR") (some lpath)
    putfile (some lpath) (some rpath) chunks =
        ftpdata 10000 (some chunks) none (codes "STOR") (some rpath)

    -- `putfile (lpath)`
    unfoldable pub putfile_unique : Option (List ℕ) → List (List ℕ) → Action (Ftp os.World) ℕ
    putfile_unique none chunks = pure rca_error
    putfile_unique (some lpath) chunks =
        ftpdata 10000 (some chunks) none (codes "STOU") (some lpath)

    -- `rpath` is not used.
    unfoldable pub append :
        Option (List ℕ) → Option (List ℕ) → List (List ℕ) → Action (Ftp os.World) ℕ
    append none rpath chunks = pure rca_error
    append (some lpath) rpath chunks = ftpdata 10000 (some chunks) none (codes "APPE") none
