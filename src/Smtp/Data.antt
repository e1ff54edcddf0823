-- ===== src/Smtp/Data.antt =====
-- `data (buf, len)` and `data (filename)` (socket++/smtp.cpp), without an `output`.
use cpr.Common.{
  ℕ, ◌+◌, ◌<◌, ◌≡◌, refl, sym, ap, ◌∙◌, subst, List, [], ◌∷◌, ◌++◌, append_assoc, append-nil, arith,
  true, false, some, none, length, codes, memcpy, get_or,
}
use cpr.Os.{Os}
use cpr.Os.Laws.{Output}
use cpr.Sockbuf.State.{Sock}
use cpr.Sockbuf.Output.Put.{IsWriter}
use cpr.Sockbuf.Output.Flush.{still}
use cpr.Sockbuf.Output.Append.{Appends, Appends-follow, Appends-none, xsputn-Appends, sync-Appends}
use cpr.Smtp.{Smtp, send_cmd, send_buf, send_file, data_cmd, end_data, data_buf}
use cpr.Smtp.Stuffing.{IsBytes, escape, ends_line, dot_before, send_buf-Appends}
use cpr.Smtp.Received.{receive, at_start, terminator, receive-escape, receive-escape_twice}
use cpr.Smtp.Commands.{crlf, put_cmd-Appends, Sends, Sends-follow, no_response}

module _ (os : Os) (fd : ℕ) (out : Output os fd) (fuel : ℕ) where
  send_cmd-Sends :
      (cmd : List ℕ) (s : Smtp os.World)
      → IsWriter os fd out s.buf
      → s.output ≡ none
      → s.buf.rep.pend < fuel
      → length cmd + 3 < fuel
      → Sends os fd out fuel (cmd ++ crlf) s (send_cmd os fuel cmd none none s)
  unfolding send_cmd
  send_cmd-Sends cmd s w o f l =
      subst (λ xs. Sends os fd out fuel xs s (send_cmd os fuel cmd none none s))
        (append-nil (cmd ++ crlf))
        (Sends-follow os fd out fuel (cmd ++ crlf) [] s _ _ w
          (
            put_cmd-Appends os fd out fuel cmd none none s.buf w f l (omega arith) (omega arith),
            refl,
          )
          (λ _ t wt same o'. no_response os fd out fuel t wt (o' ∙ o)))

  end_data-Sends :
      (s : Smtp os.World)
      → IsWriter os fd out s.buf
      → s.output ≡ none
      → s.buf.rep.pend < fuel
      → 6 < fuel
      → Sends os fd out fuel terminator s (end_data os fuel s)
  unfolding end_data
  end_data-Sends s w o f l =
      Sends-follow os fd out fuel terminator [] s _ _ w
        (
          Appends-follow os fd out terminator [] s.buf _ _ w
              (xsputn-Appends os fd out fuel fuel terminator s.buf w f (omega arith))
              (λ _ t wt same. sync-Appends os fd out fuel t wt (still f same)),
          refl,
        )
        (λ _ t wt same o'. no_response os fd out fuel t wt (o' ∙ o))

  -- A text whose last line break is not followed in memory by a dot.
  send_buf-escape :
      (text : List ℕ) (after : ℕ) (s : Sock os.World)
      → IsBytes text
      → dot_before (ends_line true text) after ≡ []
      → IsWriter os fd out s
      → s.rep.pend < fuel
      → Appends os fd out (escape true text) s (send_buf os fuel text after s)
  unfolding escape send_buf
  send_buf-escape [] after s b d w f = Appends-none os fd out tt s w
  send_buf-escape (c ∷ cs) after s b d w f =
      subst (λ xs. Appends os fd out xs s (send_buf os fuel (c ∷ cs) after s))
        (ap (λ xs. escape true (c ∷ cs) ++ xs) d ∙ append-nil (escape true (c ∷ cs)))
        (send_buf-Appends os fd out fuel c cs after s b w f)

  -- `data (buf, len)`, for a client without `output` that may write, and a text of bytes that
  -- does not end in a newline with a dot behind the buffer, puts `DATA` on a line of its own
  -- and then the text such that a receiver of RFC 821 reads exactly the text and one newline,
  -- and has consumed all that was put; a call that throws has put a front part of this. The
  -- fuel is above the buffer's size, and above 7.
  pub data_buf-received :
      (text : List ℕ) (after : ℕ) (s : Smtp os.World)
      → IsBytes text
      → dot_before (ends_line true text) after ≡ []
      → IsWriter os fd out s.buf
      → s.output ≡ none
      → s.buf.rep.pend < fuel
      → 7 < fuel
      → (wire : List ℕ) × Sends os fd out fuel
          ((codes "DATA" ++ crlf) ++ wire)
          s
          (data_buf os fuel text after s)
        × (receive at_start wire ≡ some (text ++ 10 ∷ [], []))
  unfolding data_buf data_cmd
  data_buf-received text after s b d w o f l = (
    escape true text ++ terminator,
    Sends-follow os fd out fuel (codes "DATA" ++ crlf) (escape true text ++ terminator) s _ _ w
        (send_cmd-Sends (codes "DATA") s w o f (omega arith))
        (λ _ t wt same o'.
          let ft = still f same in
          Sends-follow os fd out fuel (escape true text) terminator t _ _ wt
            (send_buf-escape text after t.buf b d wt ft, refl)
            (λ _ u wu same' o''.
              end_data-Sends u wu (o'' ∙ o' ∙ o) (still ft same') (omega arith))),
    ap (λ xs. receive at_start (escape true text ++ xs)) (sym (append-nil terminator))
        ∙ receive-escape text [],
  )

  -- Where two reads of a file cut a line before a dot, neither part ending in a newline, the
  -- loop of `data (filename)` puts a text that a receiver reads with one dot more than the file
  -- has; a call that throws has put a front part of it. This is for an object that may write, a
  -- text of bytes and fuel above the buffer's size.
  pub send_file-doubles_dot :
      (xs ys buf : List ℕ) (beyond : ℕ) (s : Sock os.World)
      → IsBytes xs
      → IsBytes ys
      → ends_line true xs ≡ false
      → ends_line true (b'.' ∷ ys) ≡ false
      → IsWriter os fd out s
      → s.rep.pend < fuel
      → (wire : List ℕ) × Appends os fd out wire s
          (send_file os fuel (xs ∷ (b'.' ∷ ys) ∷ []) buf beyond s)
        × (receive at_start (wire ++ terminator) ≡ some (xs ++ b'.' ∷ b'.' ∷ ys ++ 10 ∷ [], []))
  unfolding send_file
  send_file-doubles_dot xs ys buf beyond s bx by ex ey w f = (
    escape true xs ++ escape true (b'.' ∷ ys),
    Appends-follow os fd out (escape true xs) (escape true (b'.' ∷ ys)) s _ _ w
        (send_buf-escape xs _ s bx
          (ap (λ b. dot_before b (get_or (memcpy buf 0 xs) (length xs) beyond)) ex) w f)
        (λ _ t wt same.
          subst (λ zs. Appends os fd out zs t (send_file os fuel ((b'.' ∷ ys) ∷ []) buf' beyond t))
            (append-nil (escape true (b'.' ∷ ys)))
            (Appends-follow os fd out (escape true (b'.' ∷ ys)) [] t _ _ wt
              (send_buf-escape (b'.' ∷ ys) after t (omega arith, by)
                (ap (λ b. dot_before b after) ey) wt (still f same))
              (λ _ u wu same'. Appends-none os fd out tt u wu))),
    append_to_end ∙ receive-escape_twice xs ys [] ex,
  )
    where
      buf' : List ℕ
      buf' = memcpy buf 0 xs

      after : ℕ
      after = get_or (memcpy buf' 0 (b'.' ∷ ys)) (length (b'.' ∷ ys)) beyond

      append_to_end :
          receive at_start ((escape true xs ++ escape true (b'.' ∷ ys)) ++ terminator)
          ≡ receive at_start (escape true xs ++ (escape true (b'.' ∷ ys) ++ (terminator ++ [])))
      append_to_end =
          ap (receive at_start) (append_assoc (escape true xs) (escape true (b'.' ∷ ys)) terminator)
