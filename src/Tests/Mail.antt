-- ===== src/Tests/Mail.antt =====
-- Witnesses of the theorems about the protocols.
use cpr.Common.{ℕ, List, [], ◌∷◌, ◌++◌, none, some, ok, running, ◌≡◌, refl, arith, codes, true}
use cpr.Os.{InetAddr}
use cpr.Sockbuf.Output.Append.{Appends}
use cpr.Smtp.{Smtp, get_response, put_cmd, send_buf, send_file, data_buf}
use cpr.Smtp.Stuffing.{IsBytes, escape, ends_line, send_buf-Appends}
use cpr.Smtp.Received.{receive, at_start, terminator}
use cpr.Smtp.Commands.{crlf, put_cmd-Appends, Sends}
use cpr.Smtp.Data.{data_buf-received, send_file-doubles_dot}
use cpr.Smtp.Reply.{get_response-hangs, get_response-reads, Consumed}
use cpr.Lines.{joined}
use cpr.Inet.{htons, Resolver}
use cpr.Ftp
use cpr.Ftp.{port_address}
use cpr.Ftp.Transfer.{ftpdata, to_file}
use cpr.Ftp.Endless.{OnlyError, ftpdata-OnlyError}
use cpr.Ftp.Commands.{put_cmd-line}
use cpr.Ftp.Address.{numbers, numbers-port_address}
use cpr.Tests.Demo.{demo, Wire}
use cpr.Tests.DemoLaws.{demo_out}
use cpr.Tests.Buffers.{zeros, sock, sock-IsWriter}

abbrev client : Smtp Wire
client = record { buf = sock; output = none }

-- "hi", and a line that is a dot.
abbrev text : List ℕ
text = 104 ∷ 105 ∷ 10 ∷ 46 ∷ 10 ∷ []

bytes : IsBytes text
bytes = (omega arith, (omega arith, (omega arith, (omega arith, (omega arith, tt)))))

-- A client whose buffer holds the given bytes.
abbrev holding : List ℕ → ℕ → Smtp Wire
holding xs n = record {
  buf = record sock {
    get = some (record { gmem = xs; gptr = 0; egptr = n });
    rep = record sock.rep { gend = n };
  };
  output = some [];
}

data_buf-received_example :
    (wire : List ℕ) × Sends demo 3 demo_out 9
      ((codes "DATA" ++ crlf) ++ wire)
      client
      (data_buf demo 9 text 0 client)
    × (receive at_start wire ≡ some (text ++ 10 ∷ [], []))
unfolding ends_line
data_buf-received_example =
    data_buf-received demo 3 demo_out 9 text 0 client bytes refl sock-IsWriter refl (omega arith)
      (omega arith)

send_buf-Appends_example :
    Appends demo 3 demo_out (escape true text ++ 46 ∷ []) sock (send_buf demo 9 text 46 sock)
unfolding ends_line
send_buf-Appends_example =
    send_buf-Appends demo 3 demo_out 9 104 (105 ∷ 10 ∷ 46 ∷ 10 ∷ []) 46 sock bytes sock-IsWriter
      (omega arith)

put_cmd-Appends_example :
    Appends demo 3 demo_out
      (65 ∷ 66 ∷ 67 ∷ 13 ∷ 10 ∷ [])
      sock
      (put_cmd demo 9 (65 ∷ 66 ∷ []) (some (67 ∷ [])) none sock)
put_cmd-Appends_example =
    put_cmd-Appends demo 3 demo_out 9 (65 ∷ 66 ∷ []) (some (67 ∷ [])) none sock sock-IsWriter
      (omega arith) (omega arith) (omega arith) (omega arith)

send_file-doubles_dot_example :
    (wire : List ℕ) × Appends demo 3 demo_out wire sock
      (send_file demo 9 ((97 ∷ []) ∷ (46 ∷ 98 ∷ []) ∷ []) (0 ∷ 0 ∷ []) 0 sock)
    × (receive at_start (wire ++ terminator) ≡ some (97 ∷ 46 ∷ 46 ∷ 98 ∷ 10 ∷ [], []))
unfolding ends_line
send_file-doubles_dot_example =
    send_file-doubles_dot demo 3 demo_out 9 (97 ∷ []) (98 ∷ []) (0 ∷ 0 ∷ []) 0 sock
      (omega arith, tt) (omega arith, tt) refl refl sock-IsWriter (omega arith)

-- "250-a", "250 b" and a byte of another reply.
abbrev reply : List ℕ
reply = 50 ∷ 53 ∷ 48 ∷ 45 ∷ 97 ∷ 13 ∷ 10 ∷ 50 ∷ 53 ∷ 48 ∷ 32 ∷ 98 ∷ 13 ∷ 10 ∷ 51 ∷ []

get_response-reads_example :
    (t : Smtp Wire) × (get_response demo 9 (holding reply 15) ≡ (ok tt, t))
    × Consumed demo
        (joined ((50 ∷ 53 ∷ 48 ∷ 45 ∷ 97 ∷ []) ∷ []) (50 ∷ 53 ∷ 48 ∷ 32 ∷ 98 ∷ []))
        (51 ∷ [])
        (holding reply 15)
        t
get_response-reads_example =
    get_response-reads demo 9 ((50 ∷ 53 ∷ 48 ∷ 45 ∷ 97 ∷ []) ∷ []) (50 ∷ 53 ∷ 48 ∷ 32 ∷ 98 ∷ [])
      (51 ∷ []) (holding reply 15)
      (record { sized = refl; within = omega arith; ordered = omega arith })
      (((refl, (refl, (refl, (refl, tt)))), omega arith, refl), tt)
      ((refl, (refl, (refl, (refl, tt)))), omega arith, refl) refl (omega arith)

get_response-hangs_example :
    get_response demo 9 (holding (50 ∷ 53 ∷ 48 ∷ []) 3) ≡ (running, holding (50 ∷ 53 ∷ 48 ∷ []) 3)
get_response-hangs_example =
    get_response-hangs demo 9 (holding (50 ∷ 53 ∷ 48 ∷ []) 3)
      (record { sized = refl; within = omega arith; ordered = omega arith }) (omega arith)
      (omega arith)

abbrev local : InetAddr
local = record { sin_family = 2; sin_port = 4135; sin_addr = 16777343 }

numbers-port_address_example : numbers 0 (port_address local) ≡ 127 ∷ 0 ∷ 0 ∷ 1 ∷ 39 ∷ 16 ∷ []
unfolding htons
numbers-port_address_example = numbers-port_address local

put_cmd-line_example :
    Appends demo 3 demo_out
      (67 ∷ 87 ∷ 68 ∷ 32 ∷ 47 ∷ 13 ∷ 10 ∷ [])
      sock
      (Ftp.put_cmd demo 9 (67 ∷ 87 ∷ 68 ∷ []) (some (47 ∷ [])) sock)
put_cmd-line_example =
    put_cmd-line demo 3 demo_out 9 (67 ∷ 87 ∷ 68 ∷ []) (some (47 ∷ [])) sock sock-IsWriter
      (omega arith) (omega arith) (omega arith)

abbrev no_names : Resolver
no_names = record {
  inet_addr = λ host. 16777343;
  gethostbyname = λ host. none;
  gethostbyaddr = λ addr family. none;
  gethostname = none;
  getservbyname = λ service proto. none;
  getprotobyname = λ proto. none;
}

abbrev ftp_client : Ftp.Ftp Wire
ftp_client = record { buf = sock; replycode = 0 ∷ 0 ∷ 0 ∷ 0 ∷ 0 ∷ []; output = some []; file = [] }

ftpdata-OnlyError_example :
    OnlyError
      (ftpdata demo 9 no_names 4 zeros zeros 10000 none (some to_file) (82 ∷ []) none ftp_client)
ftpdata-OnlyError_example =
    ftpdata-OnlyError demo 9 no_names 4 zeros zeros 10000 none to_file (82 ∷ []) none ftp_client
