-- ===== src/Smtp/Commands.antt =====
-- The commands of SMTP as they go over the wire (socket++/smtp.cpp).
use cpr.Common.{
  Action, length-append, take-append_left, if◌then◌else◌, ℕ, ◌+◌, ◌<◌, ◌≡◌, refl, sym, ap, ◌∙◌,
  subst, List, [], ◌∷◌, ◌++◌, arith, Option, some, none, Result, ok, thrown, running, err, sockoob,
  written, length, follow, pure,
}
use cpr.Os.{Os}
use cpr.Os.Laws.{Output}
use cpr.Sockbuf.State.{Sock}
use cpr.Sockbuf.Output.Put.{IsWriter, IsWriter-same}
use cpr.Sockbuf.Output.Flush.{still, SameInput, history}
use cpr.Sockbuf.Output.Append.{
  Appends, Appends-follow, Appends-none, join-Appends, xsputn-Appends, sync-Appends,
}
use cpr.Smtp.{present, get_response, Smtp, put_optional, put_cmd, response_if_output}

abbrev pub crlf : List ℕ
crlf = 13 ∷ 10 ∷ []

abbrev pub or_empty : Option (List ℕ) → List ℕ
or_empty none = []
or_empty (some xs) = xs

module _ (os : Os) (fd : ℕ) (out : Output os fd) (fuel : ℕ) where
  put_optional-Appends :
      (o : Option (List ℕ)) (s : Sock os.World)
      → IsWriter os fd out s
      → s.rep.pend < fuel
      → length (or_empty o) + 1 < fuel
      → Appends os fd out (or_empty o) s (put_optional os fuel o s)
  unfolding put_optional
  put_optional-Appends none s w f l = Appends-none os fd out {A = ℕ} 0 s w
  put_optional-Appends (some xs) s w f l = xsputn-Appends os fd out fuel fuel xs s w f l

  -- What `send_cmd` of the SMTP client writes, for an object that may write and enough fuel for
  -- the buffer and for each part, is the command, its two optional arguments and <CRLF>, and if
  -- the call throws a front part of this.
  pub put_cmd-Appends :
      (cmd : List ℕ) (a b : Option (List ℕ)) (s : Sock os.World)
      → IsWriter os fd out s
      → s.rep.pend < fuel
      → length cmd + 3 < fuel
      → length (or_empty a) + 1 < fuel
      → length (or_empty b) + 1 < fuel
      → Appends os fd out
          (cmd ++ (or_empty a ++ (or_empty b ++ crlf)))
          s
          (put_cmd os fuel cmd a b s)
  unfolding put_cmd
  put_cmd-Appends cmd a b s w f lc la lb =
      Appends-follow os fd out cmd (or_empty a ++ (or_empty b ++ crlf)) s _ _ w
        (xsputn-Appends os fd out fuel fuel cmd s w f (omega arith))
        (λ _ t wt same.
          let ft = still f same in
          Appends-follow os fd out (or_empty a) (or_empty b ++ crlf) t _ _ wt
            (put_optional-Appends a t wt ft la)
            (λ _ u wu same'.
              let fu = still ft same' in
              Appends-follow os fd out (or_empty b) crlf u _ _ wu
                (put_optional-Appends b u wu fu lb)
                (λ _ v wv same''.
                  let fv = still fu same'' in
                  Appends-follow os fd out crlf [] v _ _ wv
                    (xsputn-Appends os fd out fuel fuel crlf v wv fv (omega arith))
                    (λ _ x wx same3. sync-Appends os fd out fuel x wx (still fv same3)))))

  -- The same of a call of the client: it leaves `output` alone, too.
  abbrev pub Sends : {A : Type 0} → List ℕ → Smtp os.World → Result A × Smtp os.World → Type 0
  Sends xs s (r, t) = Appends os fd out xs s.buf (r, t.buf) × (t.output ≡ s.output)

  pub Sends-follow :
      {A B : Type 0} (xs ys : List ℕ) (s : Smtp os.World) (r : Result A × Smtp os.World)
      (f : A → Action (Smtp os.World) B)
      → IsWriter os fd out s.buf
      → Sends xs s r
      → ((a : A) (t : Smtp os.World)
          → IsWriter os fd out t.buf
          → SameInput s.buf t.buf
          → t.output ≡ s.output
          → Sends ys t (f a t))
      → Sends (xs ++ ys) s (follow f r)
  Sends-follow xs ys s (ok a, t) f w ((h, v, same), o) k =
      let wt = IsWriter-same os fd out s.buf t.buf w same v in
      let (p, o') = k a t wt same o in (join-Appends os fd out xs ys s.buf t.buf _ h same p, o' ∙ o)
  Sends-follow xs ys s (thrown (err e), t) f w ((k, l, h, v, same), o) q = (
    (
      k,
      omega (arith, length-append xs ys),
      h ∙ ap (λ zs. history os fd out s.buf ++ zs) (sym (take-append_left k xs ys l)),
      v,
      same,
    ),
    o,
  )
  Sends-follow xs ys s (thrown (written n), t) f w p k = absurd p.0
  Sends-follow xs ys s (thrown sockoob, t) f w p k = absurd p.0
  Sends-follow xs ys s (running, t) f w p k = absurd p.0

  pub no_response :
      (s : Smtp os.World)
      → IsWriter os fd out s.buf
      → s.output ≡ none
      → Sends [] s (response_if_output os fuel s)
  unfolding response_if_output
  no_response s w o =
      subst (λ b. Sends [] s (if b then get_response os fuel s else pure tt s)) (sym (ap present o))
        (Appends-none os fd out tt s.buf w, refl)
