-- ===== src/Ftp.antt =====
-- The FTP client (socket++/ftp.h, socket++/ftp.cpp). Strings are their characters up to the final
-- NUL, and a null pointer is `none`. `fuel` is what each loop may use.
pub mod Text
pub mod Address
pub mod Commands
pub mod Transfer
pub mod Endless
pub mod Reply
pub mod Replies
unfoldable pub use Text.*
use cpr.Common.{
  append_to, ℕ, zero, suc, ◌+◌, ◌*◌, ◌/◌, ◌%◌, ◌^◌, List, [], ◌∷◌, ◌++◌, Option, none, some, Bool,
  true, false, not, ◌&&◌, ◌==◌, ltb, leb, Action, Result, ok, thrown, running, err, pure, throw,
  out_of_fuel, gets, modify, ◌>>=◌, ◌>>◌, if◌then◌else◌, take, drop, get_or, length, codes, decimal,
  ℤ, pos,
}
use cpr.Errno.{eaddrnotavail}
use cpr.Os.{Os, InetAddr}
use cpr.Sockbuf.State.{Sock, construct}
use cpr.Sockbuf.Buffer.{sync, xsputn, xsgetn, underflow, gbump, available, chars_of}
use cpr.Sockbuf.Lifecycle.{open_socket, destroy, listen, accept}
use cpr.Inet.{Resolver, bind_until_success, localaddr, from_host, htons}

-- A `ftpbuf`: its `sockbuf`, the member `replycode`, and what has gone to `o`, if there is one; with
-- these, what has gone to the local file that the client has open.
pub record Ftp (W : Type 0) : Type 0 where
  pub buf : Sock W
  pub replycode : List ℕ
  pub output : Option (List ℕ)
  pub file : List ℕ

module _ {W : Type 0} where
  abbrev pub settle_buf : {A : Type 0} → Ftp W → Result A × Sock W → Result A × Ftp W
  settle_buf s (r, b) = (r, record s { buf = b })

  abbrev pub on_buf : {A : Type 0} → Action (Sock W) A → Action (Ftp W) A
  on_buf m s = settle_buf s (m s.buf)

  -- The memory from `gptr ()` on, and the `n` characters of it that the area holds.
  abbrev pub at_gptr : ℕ → Ftp W → List ℕ
  at_gptr n s = chars_of n s.buf.get

  -- `if (o) o->write (q, i); gbump (i);`
  unfoldable pub write_line : ℕ → Ftp W → Ftp W
  write_line i s = record s { buf = gbump i s.buf; output = append_to (at_gptr i s) s.output }

  -- The length of the line, as the loop finds it among the `n` characters that are there.
  unfoldable pub line_size : Ftp W → ℕ
  line_size s = let n = available s.buf.get in skip_crlf 2 (at_gptr n s)

  -- The first line's code, behind it a blank.
  unfoldable pub keep_code : List ℕ → Ftp W → Ftp W
  keep_code q s = record s { replycode = strncpy 3 q ++ 32 ∷ drop 4 s.replycode }

module _ (os : Os) where
  -- A round of the loop of `get_response`: the result says whether the reply is complete.
  unfoldable pub reply_line : Bool → Action (Ftp os.World) Bool
  reply_line true s =
      let q = at_gptr 4 s in (ok (get_or q 3 0 == 32), keep_code q (write_line (line_size s) s))
  reply_line false s =
      let q = at_gptr 4 s in (ok (same_prefix 4 q s.replycode), write_line (line_size s) s)

  -- The lines of a reply, `firstline` saying whether none has been read.
  unfoldable pub reply_lines : ℕ → Bool → Action (Ftp os.World) (Unit {0})
  reply_lines zero firstline = out_of_fuel
  reply_lines (suc fuel) firstline =
      let again = reply_lines fuel firstline in
      let next = reply_lines fuel false in
      on_buf (underflow os) >>= λ c. elim c [
        | none ↦ pure tt
        | some _ ↦ λ s.
            if ltb (available s.buf.get) 5
            then again s
            else (reply_line firstline >>= λ last. if last then pure tt else next) s
      ]

  -- `replycode [0]` is a `char`: one of 128 or more, negative in the source, stands for itself here.
  unfoldable pub get_response : ℕ → Action (Ftp os.World) ℕ
  get_response fuel = reply_lines fuel true >> gets (λ s. get_or s.replycode 0 0)

  unfoldable pub put_arg : ℕ → Option (List ℕ) → Action (Sock os.World) (Unit {0})
  put_arg fuel none = pure tt
  put_arg fuel (some arg) = xsputn os fuel fuel (32 ∷ []) >> xsputn os fuel fuel arg >> pure tt

  -- The part of `send_cmd` that writes.
  unfoldable pub put_cmd : ℕ → List ℕ → Option (List ℕ) → Action (Sock os.World) ℕ
  put_cmd fuel cmd arg = do
    xsputn os fuel fuel cmd
    put_arg fuel arg
    xsputn os fuel fuel (13 ∷ 10 ∷ [])
    sync os fuel

  unfoldable pub send_cmd : ℕ → List ℕ → Option (List ℕ) → Action (Ftp os.World) ℕ
  send_cmd fuel cmd arg = on_buf (put_cmd fuel cmd arg) >> get_response fuel

  unfoldable pub help : ℕ → Action (Ftp os.World) ℕ
  help fuel = send_cmd fuel (codes "HELP") none

  unfoldable pub noop : ℕ → Action (Ftp os.World) ℕ
  noop fuel = send_cmd fuel (codes "NOOP") none

  unfoldable pub quit : ℕ → Action (Ftp os.World) ℕ
  quit fuel = send_cmd fuel (codes "QUIT") none

  unfoldable pub abort : ℕ → Action (Ftp os.World) ℕ
  abort fuel = send_cmd fuel (codes "ABOR") none

  unfoldable pub user : ℕ → Option (List ℕ) → Action (Ftp os.World) ℕ
  user fuel name = send_cmd fuel (codes "USER") name

  unfoldable pub passwd : ℕ → Option (List ℕ) → Action (Ftp os.World) ℕ
  passwd fuel pw = send_cmd fuel (codes "PASS") pw

  unfoldable pub acct : ℕ → Option (List ℕ) → Action (Ftp os.World) ℕ
  acct fuel ac = send_cmd fuel (codes "ACCT") ac

  unfoldable pub cd : ℕ → Option (List ℕ) → Action (Ftp os.World) ℕ
  cd fuel dir = send_cmd fuel (codes "CWD") dir

  unfoldable pub rmfile : ℕ → Option (List ℕ) → Action (Ftp os.World) ℕ
  rmfile fuel rpath = send_cmd fuel (codes "DELE") rpath

  unfoldable pub rmdir : ℕ → Option (List ℕ) → Action (Ftp os.World) ℕ
  rmdir fuel rpath = send_cmd fuel (codes "RMD") rpath

  unfoldable pub mkdir : ℕ → Option (List ℕ) → Action (Ftp os.World) ℕ
  mkdir fuel rpath = send_cmd fuel (codes "MKD") rpath

  unfoldable pub pwd : ℕ → Action (Ftp os.World) ℕ
  pwd fuel = send_cmd fuel (codes "PWD") none

  unfoldable pub system : ℕ → Action (Ftp os.World) ℕ
  system fuel = send_cmd fuel (codes "SYST") none

  unfoldable pub status : ℕ → Action (Ftp os.World) ℕ
  status fuel = send_cmd fuel (codes "STAT") none

  -- `allocate` and `restart`, for numbers that are not negative.
  unfoldable pub allocate : ℕ → ℕ → Action (Ftp os.World) ℕ
  allocate fuel numbytes = send_cmd fuel (codes "ALLO") (some (decimal numbytes))

  unfoldable pub restart : ℕ → ℕ → Action (Ftp os.World) ℕ
  restart fuel marker = send_cmd fuel (codes "REST") (some (decimal marker))

  abbrev pub no_address : Action (Ftp os.World) (ℕ × ℕ)
  no_address =
      throw
        (err (record { code = eaddrnotavail; operation = "ftp::replycodea"; specification = [] }))

  -- The address of the host itself, of which the first part is used.
  abbrev pub host_address : Resolver → Option (List ℕ) → Action (Ftp os.World) (ℕ × ℕ)
  host_address net none = no_address
  host_address net (some hostname) = elim (net.gethostbyname hostname) [
    | none ↦ no_address
    | some host ↦ pure host
  ]

  unfoldable pub useraddr : ℕ → Resolver → InetAddr → Action (Ftp os.World) ℕ
  useraddr fuel net sa =
      (if sa.sin_addr == 0
        then (do host ← host_address net net.gethostname; pure (record sa { sin_addr = host.0 }))
        else pure sa)
      >>= λ sa'. send_cmd fuel (codes "PORT") (some (port_address sa'))

  unfoldable pub useraddr_host : ℕ → Resolver → List ℕ → ℕ → Action (Ftp os.World) ℕ
  useraddr_host fuel net hostname portno s = elim (from_host net hostname portno) [
    | ok sa ↦ useraddr fuel net sa s
    | thrown e ↦ (thrown e, s)
    | running ↦ (running, s)
  ]

  unfoldable pub server_port : ℕ → ℕ → Action (Ftp os.World) ℕ
  server_port fuel portno = send_cmd fuel (codes "PASV") (some (port_text portno))

  unfoldable pub rep_type : ℕ → RepType → Action (Ftp os.World) ℕ
  rep_type fuel rt = send_cmd fuel (codes "TYPE") (some (reptype rt))

  unfoldable pub file_stru : ℕ → FileStru → Action (Ftp os.World) ℕ
  file_stru fuel fs = send_cmd fuel (codes "STRU") (some (filestru fs))

  unfoldable pub trans_mode : ℕ → TransMode → Action (Ftp os.World) ℕ
  trans_mode fuel tm = send_cmd fuel (codes "STRU") (some (transmode tm))

  -- The second command goes out only if the first is answered by less than '4'.
  unfoldable pub rename : ℕ → Option (List ℕ) → Option (List ℕ) → Action (Ftp os.World) ℕ
  rename fuel none newrpath = pure rca_error
  rename fuel (some rpath) none = pure rca_error
  rename fuel (some rpath) (some newrpath) = do
    code ← send_cmd fuel (codes "RNFR") (some rpath)
    if leb rca_error code then pure rca_error else send_cmd fuel (codes "RNTO") (some newrpath)
