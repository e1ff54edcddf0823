-- ===== src/Ftp/Commands.antt =====
-- The commands of FTP as they go over the wire (socket++/ftp.cpp).
use cpr.Common.{
  ℕ, ◌+◌, ◌<◌, List, [], ◌∷◌, ◌++◌, append-nil, subst, arith, Option, none, some, length,
}
use cpr.Os.{Os}
use cpr.Os.Laws.{Output}
use cpr.Sockbuf.State.{Sock}
use cpr.Sockbuf.Output.Put.{IsWriter}
use cpr.Sockbuf.Output.Flush.{still}
use cpr.Sockbuf.Output.Append.{Appends, Appends-follow, Appends-none, xsputn-Appends, sync-Appends}
use cpr.Ftp.{put_arg, put_cmd}

-- A blank and the argument, if there is one.
abbrev pub arg_text : Option (List ℕ) → List ℕ
arg_text none = []
arg_text (some arg) = 32 ∷ arg

module _ (os : Os) (fd : ℕ) (out : Output os fd) (fuel : ℕ) where
  put_arg-Appends :
      (arg : Option (List ℕ)) (s : Sock os.World)
      → IsWriter os fd out s
      → s.rep.pend < fuel
      → length (arg_text arg) + 2 < fuel
      → Appends os fd out (arg_text arg) s (put_arg os fuel arg s)
  unfolding put_arg
  put_arg-Appends none s w f l = Appends-none os fd out tt s w
  put_arg-Appends (some arg) s w f l =
      subst (λ xs. Appends os fd out xs s (put_arg os fuel (some arg) s)) (append-nil (32 ∷ arg))
        (Appends-follow os fd out (32 ∷ arg) [] s _ _ w
          (Appends-follow os fd out (32 ∷ []) arg s _ _ w
            (xsputn-Appends os fd out fuel fuel (32 ∷ []) s w f (omega arith))
            (λ _ t wt same.
              xsputn-Appends os fd out fuel fuel arg t wt (still f same) (omega arith)))
          (λ _ t wt same. Appends-none os fd out tt t wt))

  -- What `send_cmd` of the FTP client writes, for an object that may write and enough fuel for
  -- the buffer and for each part, is the command, a blank and the argument if there is one, and
  -- <CRLF>, and if the call throws a front part of this.
  pub put_cmd-line :
      (cmd : List ℕ) (arg : Option (List ℕ)) (s : Sock os.World)
      → IsWriter os fd out s
      → s.rep.pend < fuel
      → length cmd + 3 < fuel
      → length (arg_text arg) + 2 < fuel
      → Appends os fd out (cmd ++ (arg_text arg ++ 13 ∷ 10 ∷ [])) s (put_cmd os fuel cmd arg s)
  unfolding put_cmd
  put_cmd-line cmd arg s w f lc la =
      Appends-follow os fd out cmd (arg_text arg ++ 13 ∷ 10 ∷ []) s _ _ w
        (xsputn-Appends os fd out fuel fuel cmd s w f (omega arith))
        (λ _ t wt same.
          Appends-follow os fd out (arg_text arg) (13 ∷ 10 ∷ []) t _ _ wt
            (put_arg-Appends arg t wt (still f same) la)
            (λ _ u wu same'.
              let fu = still (still f same) same' in
              Appends-follow os fd out (13 ∷ 10 ∷ []) [] u _ _ wu
                (xsputn-Appends os fd out fuel fuel (13 ∷ 10 ∷ []) u wu fu (omega arith))
                (λ _ v wv same''. sync-Appends os fd out fuel v wv (still fu same''))))
