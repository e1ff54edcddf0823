-- ===== src/Ftp/Replies.antt =====
-- The loop of `get_response` of the FTP client (socket++/ftp.cpp) over the lines of a reply.
use mathlib.Core.Path.{ap₂}
use cpr.Common.{
  ℕ, zero, suc, ◌+◌, ◌<◌, ◌≡◌, refl, ap, ◌∙◌, List, [], ◌∷◌, ◌++◌, append_assoc, arith, Bool, true,
  false, ◌==◌, ==_iff, Result, ok, drop, length, ltb, ge→ltb, if◌then◌else◌, length-append,
}
use cpr.Os.{Os}
use cpr.Sockbuf.Buffer.{available}
use cpr.Sockbuf.Input.Area.{GetValid, unread, length-unread}
use cpr.Sockbuf.Input.Underflow.{underflow_ready}
use cpr.Lines.{NoCrlf, ended, joined, length-ended}
use cpr.Ftp.{
  Ftp, write_line, line_size, keep_code, reply_line, reply_lines, get_response, same_prefix,
}
use cpr.Ftp.Reply.{
  Code, coded, final, Reply, one_line, more_lines, AreBetween, IsReply, reply_text, lines_before,
  Consumed, Consumed-trans, write_line-Consumed, at_gptr-line, same_prefix-take, same_prefix-append,
}

module _ (os : Os) where
  split :
      (last : Bool) (fuel : ℕ) (t : Ftp os.World)
      → (if last then (λ u. (ok tt, u)) else reply_lines os fuel false) t
        ≡ (if last then (ok tt, t) else reply_lines os fuel false t)
  split true fuel t = refl
  split false fuel t = refl

  -- One round of the loop, with at least five characters in the buffer.
  reply_round :
      (firstline last : Bool) (fuel : ℕ) (s t : Ftp os.World)
      → 4 < available s.buf.get
      → reply_line os firstline s ≡ (ok last, t)
      → reply_lines os (suc fuel) firstline s
        ≡ (if last then (ok tt, t) else reply_lines os fuel false t)
  unfolding reply_lines
  reply_round firstline last fuel s t h r =
      let (c, ready) = underflow_ready os s.buf (omega arith) in
      let long : ltb (available s.buf.get) 5 ≡ false =
        ge→ltb (available s.buf.get) 5 (omega arith) in
      rw (ready, long, r) (split last fuel t)

  -- Enough characters for a line of four and its <CRLF>.
  five :
      (xs rest : List ℕ) (s : Ftp os.World)
      → GetValid s.buf.rep.gend s.buf.get
      → unread s.buf.get ≡ ended xs ++ rest
      → 2 < length xs + length rest
      → 4 < available s.buf.get
  five xs rest s v e h = omega (
    arith,
    length-unread s.buf.rep.gend s.buf.get v,
    ap length e,
    length-append (ended xs) rest,
    length-ended xs,
  )

  -- The first line: its code is kept, and it is the last one where a blank is behind the code.
  first_line :
      (c : Code) (d : ℕ) (text rest : List ℕ) (s : Ftp os.World)
      → GetValid s.buf.rep.gend s.buf.get
      → unread s.buf.get ≡ ended (coded c (d ∷ text)) ++ rest
      → reply_line os true s ≡ (
        ok (d == 32),
        record (write_line (line_size s) s) { replycode = final c ++ drop 4 s.replycode },
      )
  unfolding reply_line keep_code write_line
  first_line c d text rest s v e =
      let q = at_gptr-line os (coded c (d ∷ text)) rest s v e (omega arith) in
      let (n0, n1, n2) = c.not_nul in rw (q, n0, n1, n2) refl

  -- A later line: whether it begins as the last one does.
  later_line :
      (c : Code) (zs xs rest : List ℕ) (s : Ftp os.World)
      → GetValid s.buf.rep.gend s.buf.get
      → unread s.buf.get ≡ ended xs ++ rest
      → 1 < length xs
      → s.replycode ≡ final c ++ zs
      → reply_line os false s
        ≡ (ok (same_prefix 4 (ended xs) (final c)), write_line (line_size s) s)
  unfolding reply_line
  later_line c zs xs rest s v e l code =
      ap (λ b. (ok b, write_line (line_size s) s))
        (ap₂ (same_prefix 4) (at_gptr-line os xs rest s v e l) code
          ∙ same_prefix-take 4 (ended xs) (final c ++ zs)
          ∙ same_prefix-append 4 (ended xs) (final c) zs (omega arith))

  last_prefix :
      (c : Code) (text : List ℕ) → same_prefix 4 (ended (coded c (32 ∷ text))) (final c) ≡ true
  last_prefix c text =
      let (n0, n1, n2) = c.not_nul in
      rw
        (
          n0,
          n1,
          n2,
          (==_iff c.c0 c.c0).1 refl,
          (==_iff c.c1 c.c1).1 refl,
          (==_iff c.c2 c.c2).1 refl,
        )
        refl

  length-joined : (ls : List (List ℕ)) (last : List ℕ) → 1 < length (joined ls last)
  length-joined [] last = omega (arith, length-ended last)
  length-joined (xs ∷ ls) last =
      omega (arith, length-append (ended xs) (joined ls last), length-ended xs)

  -- What the loop does with the lines behind the first.
  abbrev pub Ends :
      Code → List ℕ → List ℕ → Ftp os.World → Result (Unit {0}) × Ftp os.World → Type 0
  Ends c text rest s r =
      (t : Ftp os.World) × (r ≡ (ok tt, t))
      × Consumed os text rest s t
      × (t.replycode ≡ s.replycode)

  later_lines :
      (fuel : ℕ) (c : Code) (zs : List ℕ) (ls : List (List ℕ)) (last rest : List ℕ)
      (s : Ftp os.World)
      → GetValid s.buf.rep.gend s.buf.get
      → s.replycode ≡ final c ++ zs
      → AreBetween c ls
      → NoCrlf (coded c (32 ∷ last))
      → unread s.buf.get ≡ joined ls (coded c (32 ∷ last)) ++ rest
      → length ls < fuel
      → Ends c (joined ls (coded c (32 ∷ last))) rest s (reply_lines os fuel false s)
  unfolding write_line
  later_lines zero c zs ls last rest s v code between n e h = absurd (omega arith)
  later_lines (suc fuel) c zs [] last rest s v code between n e h =
      let xs = coded c (32 ∷ last) in
      let r =
        later_line c zs xs rest s v e (omega arith) code
        ∙ ap (λ b. (ok b, write_line (line_size s) s)) (last_prefix c last) in
      (
        write_line (line_size s) s,
        reply_round false true fuel s (write_line (line_size s) s)
            (five xs rest s v e (omega arith)) r,
        write_line-Consumed os xs rest s v e n,
        refl,
      )
  later_lines (suc fuel) c zs (xs ∷ ls) last rest s v code between n e h =
      let ((nx, l, differs), others) = between in
      let rest' = joined ls (coded c (32 ∷ last)) ++ rest in
      let e' : unread s.buf.get ≡ ended xs ++ rest' =
        e ∙ append_assoc (ended xs) (joined ls (coded c (32 ∷ last))) rest in
      let r =
        later_line c zs xs rest' s v e' l code
        ∙ ap (λ b. (ok b, write_line (line_size s) s)) differs in
      let k = write_line-Consumed os xs rest' s v e' nx in
      let size = five xs rest' s v e' (
        omega (
          arith,
          l,
          length-append (joined ls (coded c (32 ∷ last))) rest,
          length-joined ls (coded c (32 ∷ last)),
        )) in
      let (t, r', k', code') =
        later_lines fuel c zs ls last rest (write_line (line_size s) s) k.valid code others n k.left
          (omega arith) in
      (
        t,
        reply_round false false fuel s (write_line (line_size s) s) size r ∙ r',
        Consumed-trans os k k',
        code',
      )

  -- The first line of a reply, in the state that it leaves.
  first-Consumed :
      (c : Code) (d : ℕ) (text rest : List ℕ) (s : Ftp os.World)
      → GetValid s.buf.rep.gend s.buf.get
      → unread s.buf.get ≡ ended (coded c (d ∷ text)) ++ rest
      → NoCrlf (coded c (d ∷ text))
      → Consumed os
          (ended (coded c (d ∷ text)))
          rest
          s
          (record (write_line (line_size s) s) { replycode = final c ++ drop 4 s.replycode })
  first-Consumed c d text rest s v e n =
      let k = write_line-Consumed os (coded c (d ∷ text)) rest s v e n in
      record { valid = k.valid; left = k.left; output = k.output; world = k.world; put = k.put }

  whole_reply :
      (fuel : ℕ) (c : Code) (reply : Reply) (rest : List ℕ) (s : Ftp os.World)
      → GetValid s.buf.rep.gend s.buf.get
      → IsReply c reply
      → unread s.buf.get ≡ reply_text c reply ++ rest
      → lines_before reply < fuel
      → (t : Ftp os.World) × (reply_lines os fuel true s ≡ (ok tt, t))
        × Consumed os (reply_text c reply) rest s t
        × (t.replycode ≡ final c ++ drop 4 s.replycode)
  whole_reply zero c reply rest s v i e h = absurd (omega arith)
  whole_reply (suc fuel) c (one_line text) rest s v i e h =
      let t : Ftp os.World = record (write_line (line_size s) s) {
        replycode = final c ++ drop 4 s.replycode;
      } in
      (
        t,
        reply_round true true fuel s t (five (coded c (32 ∷ text)) rest s v e (omega arith))
            (first_line c 32 text rest s v e),
        first-Consumed c 32 text rest s v e i,
        refl,
      )
  whole_reply (suc fuel) c (more_lines d text ls last) rest s v (differs, n, between, n') e h =
      let xs = coded c (d ∷ text) in
      let rest' = joined ls (coded c (32 ∷ last)) ++ rest in
      let e' : unread s.buf.get ≡ ended xs ++ rest' =
        e ∙ append_assoc (ended xs) (joined ls (coded c (32 ∷ last))) rest in
      let t : Ftp os.World = record (write_line (line_size s) s) {
        replycode = final c ++ drop 4 s.replycode;
      } in
      let k = first-Consumed c d text rest' s v e' n in
      let (u, r, k', code) =
        later_lines fuel c (drop 4 s.replycode) ls last rest t k.valid refl between n' k.left
          (omega arith) in
      (
        u,
        reply_round true false fuel s t (five xs rest' s v e' (omega arith))
              (first_line c d text rest' s v e' ∙ ap (λ b. (ok b, t)) differs)
            ∙ r,
        Consumed-trans os k k',
        code,
      )

  -- `get_response` of the FTP client, on a valid get area that holds a whole reply, returns the
  -- first character of its code, after having sent exactly the reply to the output, and leaves
  -- what follows it unread. The reply is a line that begins with three characters, none of them
  -- NUL, and a blank; or one with another character in place of the blank, then lines of at
  -- least two characters that do not begin with the three and a blank, and one that does. More
  -- rounds than there are lines before the last are enough fuel.
  pub get_response-returns :
      (fuel : ℕ) (c : Code) (reply : Reply) (rest : List ℕ) (s : Ftp os.World)
      → GetValid s.buf.rep.gend s.buf.get
      → IsReply c reply
      → unread s.buf.get ≡ reply_text c reply ++ rest
      → lines_before reply < fuel
      → (t : Ftp os.World) × (get_response os fuel s ≡ (ok c.c0, t))
        × Consumed os (reply_text c reply) rest s t
  unfolding get_response
  get_response-returns fuel c reply rest s v i e h =
      let (t, r, k, code) = whole_reply fuel c reply rest s v i e h in (t, rw (r, code) refl, k)
