-- ===== src/Tests/Net.antt =====
-- Witnesses of the theorems about ports, options, errors, signals and the end of a `sockbuf`.
use cpr.Common.{
  ℕ, List, [], ◌∷◌, some, true, false, not, ◌&&◌, ◌≡◌, ◌==◌, refl, arith, if◌then◌else◌, ok,
  Bool-cases, inl, inr,
}
use cpr.Os.{done}
use cpr.Sockbuf.Buffer.{xsputn, xsgetn, sync}
use cpr.Sockbuf.Lifecycle.{destroy, copy_construct}
use cpr.Sockbuf.Options.{
  debug, set_debug, reuseaddr, set_reuseaddr, keepalive, set_keepalive, dontroute, set_dontroute,
  broadcast, set_broadcast, oobinline, set_oobinline,
}
use cpr.Sockbuf.Options.Flags.{
  debugs, reuses_addr, keeps_alive, ignores_routes, broadcasts, reads_oob_inline, Got, Swapped,
  flag_calls,
}
use cpr.Sockbuf.Output.Ending.{Ends, destroy-Ends, copy_construct-mute}
use cpr.Inet.{bind_until_success}
use cpr.Inet.Ports.{Finds, bind_until_success-Finds}
use cpr.Errors.{
  sockerr_io, sockerr_arg, sockerr_op, sockerr_conn, sockerr_addr, sockerr_benign, err_io, err_arg,
  err_op, err_conn, err_addr, err_benign,
}
use cpr.Errors.Classes.{err_tests}
use cpr.Sig.Calls.{IsReady}
use cpr.Sig.Handled.{
  Op, sets, unsets, unbinds, kills, masks_in, resumes, perform_all, perform_all-IsReady,
}
use cpr.Sig.{set_on, Sig, SigOs, Disposition, sig_dfl, sighandler, set, unset, found, erase}
use cpr.Sig.Laws.{Actions}
use cpr.Sig.Lists.{IsWell}
use cpr.Sig.Handlers.{Sets, set-Sets, unset-removes, unset-set}
use cpr.Tests.Demo.{demo}
use cpr.Tests.DemoLaws.{demo_out, demo_ports, demo_flags}
use cpr.Tests.Buffers.{sock, sock-IsWriter}

-- The port 80 is taken.
bind_until_success-Finds_example :
    Finds demo 3 demo_ports 80 85 sock (bind_until_success demo 5 80 sock)
bind_until_success-Finds_example = bind_until_success-Finds demo 3 demo_ports 5 80 sock refl

flag_calls_example :
    Got demo 3 demo_flags debugs sock (debug demo sock)
    × Swapped demo 3 demo_flags debugs true sock (set_debug demo true sock)
    × Got demo 3 demo_flags reuses_addr sock (reuseaddr demo sock)
    × Swapped demo 3 demo_flags reuses_addr true sock (set_reuseaddr demo true sock)
    × Got demo 3 demo_flags keeps_alive sock (keepalive demo sock)
    × Swapped demo 3 demo_flags keeps_alive true sock (set_keepalive demo true sock)
    × Got demo 3 demo_flags ignores_routes sock (dontroute demo sock)
    × Swapped demo 3 demo_flags ignores_routes true sock (set_dontroute demo true sock)
    × Got demo 3 demo_flags broadcasts sock (broadcast demo sock)
    × Swapped demo 3 demo_flags broadcasts true sock (set_broadcast demo true sock)
    × Got demo 3 demo_flags reads_oob_inline sock (oobinline demo sock)
    × Swapped demo 3 demo_flags reads_oob_inline true sock (set_oobinline demo true sock)
flag_calls_example = flag_calls demo 3 demo_flags true sock refl

destroy-Ends_example : Ends demo 3 demo_out sock (destroy demo 9 1 sock)
destroy-Ends_example = destroy-Ends demo 3 demo_out (λ w. refl) 9 1 sock sock-IsWriter (omega arith)

copy_construct-mute_example :
    let t = copy_construct sock in
    (xsputn demo 9 3 (7 ∷ 8 ∷ []) t ≡ (ok 0, t))
    × (sync demo 9 t ≡ (ok 0, t))
    × (xsgetn demo 3 5 t ≡ (ok ([], 0), t))
copy_construct-mute_example = copy_construct-mute demo 9 2 7 4 (8 ∷ []) sock

-- `ETIMEDOUT`
err_tests_example :
    (err_benign 110 ≡ sockerr_benign 110)
    × (err_addr 110 ≡ sockerr_addr 110)
    × (err_conn 110 ≡ sockerr_conn 110)
    × (err_op 110 ≡ sockerr_op 110 && not (sockerr_conn 110))
    × (err_arg 110 ≡ sockerr_arg 110)
    × (err_io 110 ≡ sockerr_io 110)
err_tests_example = err_tests 110

-- Signals whose actions are a function of their number.
abbrev signals : SigOs
signals = record {
  World = ℕ → Disposition;
  SigSet = List ℕ;
  sigemptyset = λ x w. (done [], w);
  sigaddset = λ x n w. (done (n ∷ x), w);
  sigdelset = λ x n w. (done (erase n x), w);
  sigismember = λ x n w. (done (found n x), w);
  sigprocmask = λ block x w. (done tt, w);
  sigpending = λ x w. (done [], w);
  sigaction_get = λ n w. (done (w n, ([], 0)), w);
  sigaction_set = λ n a w. (done tt, λ m. if m == n then a.0 else w m);
  invoke = λ h n w. (done tt, w);
}

here : (n : ℕ) (d e : Disposition) → (if n == n then d else e) ≡ d
here n d e = ground arith

abbrev signals-Actions : Actions signals
signals-Actions = record {
  action = λ w n. w n;
  get_reads = λ n w. (refl, λ m. refl);
  set_replaces = λ n a w. (here n a.0 (w n), λ m ne. rw ne refl);
  empty_keeps = λ x w m. refl;
  add_keeps = λ x n w m. refl;
  del_keeps = λ x n w m. refl;
  procmask_keeps = λ b x w m. refl;
  invoke_keeps = λ h n w m. refl;
}

-- Signal 2 has the handler 7.
abbrev listed : ℕ → List ℕ
listed n = if n == 2 then 7 ∷ [] else []

abbrev sig : Sig (ℕ → Disposition)
sig = record { smap = listed; errno = 0; world = λ n. if n == 2 then sighandler else sig_dfl }

sig-IsWell : IsWell sig
sig-IsWell n = ground arith

set-Sets_example : Sets signals signals-Actions 5 9 sig (set signals 5 (some 9) sig)
set-Sets_example = set-Sets signals signals-Actions 5 9 sig

sig-IsReady : IsReady signals signals-Actions sig
sig-IsReady = record {
  well = sig-IsWell;
  handled = λ n. elim (Bool-cases (n == 2)) [ inl b ↦ rw b (inr refl) | inr b ↦ rw b (inl refl) ];
}

abbrev ops : List (Op (List ℕ))
ops = sets 5 9 ∷ masks_in 3 4 ∷ unsets 2 7 ∷ resumes 5 false ∷ kills 5 ∷ unbinds 5 ∷ []

perform_all-IsReady_example : IsReady signals signals-Actions (perform_all signals ops sig)
perform_all-IsReady_example = perform_all-IsReady signals signals-Actions ops sig sig-IsReady

unset-removes_example :
    let (r, t) = unset signals 2 (some 7) sig in
    (r ≡ ok (found 7 (sig.smap 2)))
    × (t.smap 2 ≡ erase 7 (sig.smap 2))
    × (found 7 (t.smap 2) ≡ false)
    × IsWell t
    × (t.world ≡ sig.world)
unset-removes_example = unset-removes signals signals-Actions 2 7 sig sig-IsWell

-- Signal 2 with the handlers 7 and 9.
abbrev both : Sig (ℕ → Disposition)
both = record sig { smap = λ n. if n == 2 then 7 ∷ 9 ∷ [] else sig.smap n }

unset-set_example :
    ((unset signals 2 (some 9) both).0 ≡ ok true)
    × ((n : ℕ) → (unset signals 2 (some 9) both).1.smap n ≡ sig.smap n)
unfolding set set_on
unset-set_example = unset-set signals signals-Actions 2 9 sig both refl
