-- ===== src/Tests/Replies.antt =====
-- The witnesses of the theorems about whole replies.
use cpr.Common.{ℕ, List, [], ◌∷◌, ◌≡◌, refl, some, none, ok, arith}
use cpr.Ftp.{Ftp, get_response}
use cpr.Ftp.Reply.{Code, Reply, more_lines, reply_text, Consumed}
use cpr.Ftp.Replies.{get_response-returns}
use cpr.Tests.Demo.{demo, Wire, start}
use cpr.Sockbuf.State.{Sock}
use cpr.Sockbuf.Input.Underflow.{IsReader}
use cpr.Smtp.Stream.{SmtpStream, smtp, print_response}
use cpr.Smtp.Stream.Printed.{Prints, print_response-Prints}
use cpr.Tests.DemoLaws.{demo_inp}
use cpr.Tests.Buffers.{sock}

abbrev code : Code
code = record { c0 = 50; c1 = 50; c2 = 48; not_nul = (refl, refl, refl) }

-- "220-a", "bb" and "220 c".
abbrev reply : Reply
reply = more_lines 45 (97 ∷ []) ((98 ∷ 98 ∷ []) ∷ []) (99 ∷ [])

-- The reply and a byte of another one, in a buffer of 19 bytes.
abbrev text : List ℕ
text =
    50 ∷ 50 ∷ 48 ∷ 45 ∷ 97 ∷ 13 ∷ 10 ∷ 98 ∷ 98 ∷ 13 ∷ 10 ∷ 50 ∷ 50 ∷ 48 ∷ 32 ∷ 99 ∷ 13 ∷ 10 ∷ 51
    ∷ []

abbrev holding : Ftp Wire
holding = record {
  buf = record sock {
    rep = record sock.rep { gend = 19 };
    get = some (record { gmem = text; gptr = 0; egptr = 19 });
  };
  replycode = 0 ∷ 0 ∷ 0 ∷ 0 ∷ 0 ∷ [];
  output = some [];
  file = [];
}

get_response-returns_example :
    (t : Ftp Wire) × (get_response demo 9 holding ≡ (ok 50, t))
    × Consumed demo (reply_text code reply) (51 ∷ []) holding t
get_response-returns_example =
    get_response-returns demo 9 code reply (51 ∷ []) holding
      (record { sized = refl; within = omega arith; ordered = omega arith })
      (
        refl,
        (refl, (refl, (refl, (refl, tt)))),
        ((((refl, tt), omega arith, refl)), tt),
        (refl, (refl, (refl, (refl, tt)))),
      )
      refl (omega arith)

-- "220-a" and "22" arrive through a buffer of four bytes, and "9" behind them.
abbrev arriving : Sock Wire
arriving = record sock {
  world = record start {
    incoming = 50 ∷ 50 ∷ 48 ∷ 45 ∷ 97 ∷ 13 ∷ 10 ∷ 50 ∷ 50 ∷ 13 ∷ 10 ∷ 57 ∷ [];
  };
}

arriving-IsReader : IsReader demo 3 demo_inp arriving
arriving-IsReader = record { valid = omega arith; opened = refl; at = refl; roomy = omega arith }

abbrev stream : SmtpStream Wire
stream = smtp (record { buf = arriving; output = none })

print_response-Prints_example :
    Prints demo 3 demo_inp
      (50 ∷ 50 ∷ 48 ∷ 45 ∷ 97 ∷ 13 ∷ 10 ∷ 50 ∷ 50 ∷ 13 ∷ 10 ∷ [])
      (57 ∷ [])
      stream
      (print_response demo 4 [] stream)
unfolding smtp
print_response-Prints_example =
    print_response-Prints demo 3 demo_inp 4 ((50 ∷ 50 ∷ 48 ∷ 45 ∷ 97 ∷ 13 ∷ []) ∷ [])
      (50 ∷ 50 ∷ 13 ∷ []) (57 ∷ []) [] stream
      (
        (
          (
            omega arith,
            refl,
            (
              omega arith,
              refl,
              (
                omega arith,
                refl,
                (omega arith, refl, (omega arith, refl, (omega arith, refl, tt))),
              ),
            ),
          ),
          omega arith,
          refl,
        ),
        ((omega arith, refl, (omega arith, refl, (omega arith, refl, tt))), omega arith, refl),
      )
      refl arriving-IsReader refl (omega arith)
