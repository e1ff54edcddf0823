-- ===== src/Smtp.antt =====
-- The SMTP client (socket++/smtp.h, socket++/smtp.cpp) where USE_WINSOCK is not defined. Strings are
-- their characters up to the final NUL, and a null pointer is `none`. `fuel` is what each loop may use.
pub mod Stuffing
pub mod Received
pub mod Commands
pub mod Data
pub mod Reply
pub mod Stream
use cpr.Common.{
  append_to, ℕ, zero, suc, ◌+◌, List, [], ◌∷◌, ◌++◌, Option, none, some, Bool, true, false, ◌&&◌,
  ◌==◌, ltb, leb, Action, Result, ok, thrown, running, pure, out_of_fuel, gets, modify, ◌>>=◌, ◌>>◌,
  if◌then◌else◌, take, get_or, length, codes, memcpy,
}
use cpr.Os.{Os}
use cpr.Sockbuf.State.{Sock}
use cpr.Sockbuf.Buffer.{sync, xsputn, sputc, underflow, gbump, available, chars_of}

abbrev pub present : Option (List ℕ) → Bool
present none = false
present (some _) = true

-- A `smtpbuf`: its `sockbuf`, and what has gone to `output`, if there is one.
pub record Smtp (W : Type 0) : Type 0 where
  pub buf : Sock W
  pub output : Option (List ℕ)

module _ {W : Type 0} where
  abbrev pub settle_buf : {A : Type 0} → Smtp W → Result A × Sock W → Result A × Smtp W
  settle_buf s (r, b) = (r, record s { buf = b })

  -- A call of the `sockbuf` that the object is.
  abbrev pub on_buf : {A : Type 0} → Action (Sock W) A → Action (Smtp W) A
  on_buf m s = settle_buf s (m s.buf)

  -- `if (output) output->write (q, i); gbump (i);` with `xs` the characters from `q` on.
  unfoldable pub write_line : ℕ → List ℕ → Smtp W → Smtp W
  write_line i xs s = record s { buf = gbump i s.buf; output = append_to (take i xs) s.output }

  -- The characters from `gptr ()` on, `in_avail ()` of them.
  abbrev pub line_of : Smtp W → List ℕ
  line_of s = chars_of (available s.buf.get) s.buf.get

-- The loop up to <CRLF>: the number of characters up to and with the first <CRLF>.
unfoldable pub find_crlf : ℕ → List ℕ → Option ℕ
find_crlf i [] = none
find_crlf i (a ∷ []) = none
find_crlf i (a ∷ b ∷ xs) = if (a == 13) && (b == 10) then some i else find_crlf (suc i) (b ∷ xs)

-- `*(p + 1)`, which is the byte behind the buffer at its last character.
abbrev pub next_char : List ℕ → ℕ → ℕ
next_char [] after = after
next_char (c ∷ cs) after = c

module _ (os : Os) where
  -- One line of a reply; the result says whether another one follows.
  unfoldable pub reply_line : Action (Smtp os.World) Bool
  reply_line s =
      let xs = line_of s in
      (ok (get_or xs 3 0 == b'-'), elim (find_crlf 2 xs) [ none ↦ s | some i ↦ write_line i xs s ])

  unfoldable pub get_response : ℕ → Action (Smtp os.World) (Unit {0})
  get_response zero = out_of_fuel
  get_response (suc fuel) =
      let rest = get_response fuel in
      on_buf (underflow os) >>= λ c. elim c [
        | none ↦ pure tt
        | some _ ↦ λ s.
            if ltb (length (line_of s)) 5
            then rest s
            else (reply_line >>= λ more. if more then rest else pure tt) s
      ]

  unfoldable pub put_optional : ℕ → Option (List ℕ) → Action (Sock os.World) ℕ
  put_optional fuel none = pure 0
  put_optional fuel (some xs) = xsputn os fuel fuel xs

  -- The part of `send_cmd` that writes.
  unfoldable pub put_cmd : ℕ → List ℕ → Option (List ℕ) → Option (List ℕ) → Action (Sock os.World) ℕ
  put_cmd fuel cmd s p = do
    xsputn os fuel fuel cmd
    put_optional fuel s
    put_optional fuel p
    xsputn os fuel fuel (13 ∷ 10 ∷ [])
    sync os fuel

  -- `if (output) get_response ();`
  unfoldable pub response_if_output : ℕ → Action (Smtp os.World) (Unit {0})
  response_if_output fuel s = if present s.output then get_response fuel s else pure tt s

  unfoldable pub send_cmd :
      ℕ → List ℕ → Option (List ℕ) → Option (List ℕ) → Action (Smtp os.World) (Unit {0})
  send_cmd fuel cmd s p = do on_buf (put_cmd fuel cmd s p); response_if_output fuel

  -- `host` is what `localhost ()` returns.
  unfoldable pub helo : ℕ → List ℕ → Action (Smtp os.World) (Unit {0})
  helo fuel host = do response_if_output fuel; send_cmd fuel (codes "HELO ") (some host) none

  unfoldable pub quit : ℕ → Action (Smtp os.World) (Unit {0})
  quit fuel = send_cmd fuel (codes "QUIT") none none

  unfoldable pub turn : ℕ → Action (Smtp os.World) (Unit {0})
  turn fuel = send_cmd fuel (codes "TURN") none none

  unfoldable pub rset : ℕ → Action (Smtp os.World) (Unit {0})
  rset fuel = send_cmd fuel (codes "RSET") none none

  unfoldable pub noop : ℕ → Action (Smtp os.World) (Unit {0})
  noop fuel = send_cmd fuel (codes "NOOP") none none

  unfoldable pub vrfy : ℕ → Option (List ℕ) → Action (Smtp os.World) (Unit {0})
  vrfy fuel s = send_cmd fuel (codes "VRFY ") s none

  unfoldable pub expn : ℕ → Option (List ℕ) → Action (Smtp os.World) (Unit {0})
  expn fuel s = send_cmd fuel (codes "EXPN ") s none

  unfoldable pub help : ℕ → Option (List ℕ) → Action (Smtp os.World) (Unit {0})
  help fuel s = send_cmd fuel (codes "HELP ") s none

  unfoldable pub mail : ℕ → Option (List ℕ) → Action (Smtp os.World) (Unit {0})
  mail fuel none = send_cmd fuel (codes "MAIL FROM:<>") none none
  mail fuel (some path) = send_cmd fuel (codes "MAIL FROM:<") (some path) (some (codes ">"))

  unfoldable pub rcpt : ℕ → Option (List ℕ) → Action (Smtp os.World) (Unit {0})
  rcpt fuel none = pure tt
  rcpt fuel (some path) = send_cmd fuel (codes "RCPT TO:<") (some path) (some (codes ">"))

  -- `DATA` alone.
  unfoldable pub data_cmd : ℕ → Action (Smtp os.World) (Unit {0})
  data_cmd fuel = send_cmd fuel (codes "DATA") none none

  -- `if (c == '.') sputc ('.');`
  abbrev pub put_dot : ℕ → ℕ → Action (Sock os.World) (Unit {0})
  put_dot fuel c = if c == b'.' then sputc os fuel b'.' >> pure tt else pure tt

  -- The loop of `send_buf`, with `after` the byte that stands behind the buffer.
  unfoldable pub send_chars : ℕ → List ℕ → ℕ → Action (Sock os.World) (Unit {0})
  send_chars fuel [] after = pure tt
  send_chars fuel (c ∷ cs) after =
      (if c == 10
        then sputc os fuel 13 >> sputc os fuel c >> put_dot fuel (next_char cs after)
        else sputc os fuel c >> pure tt)
      >> send_chars fuel cs after

  unfoldable pub send_buf : ℕ → List ℕ → ℕ → Action (Sock os.World) (Unit {0})
  send_buf fuel [] after = pure tt
  send_buf fuel (c ∷ cs) after = put_dot fuel c >> send_chars fuel (c ∷ cs) after

  -- What `data` does behind the text.
  unfoldable pub end_data : ℕ → Action (Smtp os.World) (Unit {0})
  end_data fuel = do
    on_buf (xsputn os fuel fuel (13 ∷ 10 ∷ b'.' ∷ 13 ∷ 10 ∷ []) >> sync os fuel)
    response_if_output fuel

  -- `data (buf, len)`
  unfoldable pub data_buf : ℕ → List ℕ → ℕ → Action (Smtp os.World) (Unit {0})
  data_buf fuel text after = do data_cmd fuel; on_buf (send_buf fuel text after); end_data fuel

  -- The loop of `data (filename)` over what the calls of `::read` deliver. `buf` is the local array,
  -- and `beyond` the byte behind it.
  unfoldable pub send_file : ℕ → List (List ℕ) → List ℕ → ℕ → Action (Sock os.World) (Unit {0})
  send_file fuel [] buf beyond = pure tt
  send_file fuel (chunk ∷ chunks) buf beyond =
      let buf' = memcpy buf 0 chunk in
      send_buf fuel chunk (get_or buf' (length chunk) beyond) >> send_file fuel chunks buf' beyond

  unfoldable pub data_file : ℕ → List (List ℕ) → List ℕ → ℕ → Action (Smtp os.World) (Unit {0})
  data_file fuel chunks buf beyond = do
    data_cmd fuel
    on_buf (send_file fuel chunks buf beyond)
    end_data fuel
