-- ===== src/Tests/Sessions.antt =====
-- Witnesses of the theorems about whole connections and about the echo server.
use cpr.Common.{false, ℕ, zero, suc, List, [], ◌∷◌, ◌≡◌, refl, none, pos, arith}
use cpr.Os.{done}
use cpr.Os.Laws.{Duplex}
use cpr.Sockbuf.State.{construct}
use cpr.Sockbuf.Session.{Op, puts, flushes, gets, run, perform}
use cpr.Sockbuf.Session.Bounds.{Within, begins, calls, Reaches-Within}
use cpr.Sockbuf.Session.Refines.{Refines, run-Refines}
use cpr.Inet.{Resolver}
use cpr.Protocol.{tcp}
use cpr.Fork.{ForkOs, exited}
use cpr.Echo.{relay}
use cpr.Echo.Relay.{Echoes, relay-Echoes}
use cpr.Echo.Server.{Server, serve_one, serve_clients}
use cpr.Echo.Child.{EchoesClient, serve_one-Echoes}
use cpr.Echo.Children.{Serves, serve_clients-Serves}
use cpr.Tests.Demo.{demo, Wire, wire_write, start}
use cpr.Tests.DemoLaws.{wire_write-Transfers, wire_read-Delivers, sent_of, incoming_of}
use cpr.Tests.Buffers.{sock, zeros}

write_keeps : (plan xs : List ℕ) (w : Wire) → (wire_write plan xs w).1.incoming ≡ w.incoming
write_keeps [] xs w = refl
write_keeps (zero ∷ plan) xs w = refl
write_keeps (suc k ∷ plan) xs w = refl

abbrev demo_duplex : (fd : ℕ) → Duplex demo fd
demo_duplex fd = record {
  output = record {
    accepted = sent_of;
    write_takes = λ bs w. wire_write-Transfers w.plan bs w fd;
    write_select = λ watch t w. refl;
  };
  input = record {
    pending = incoming_of;
    read_gives = λ n w. wire_read-Delivers n w;
    read_select = λ watch t w. refl;
    read_ioctl = λ r arg w. refl;
  };
  select_keeps = λ watch d t w. (refl, refl);
  ioctl_keeps = λ d r arg w. (refl, refl);
  read_keeps = λ d n w. refl;
  write_keeps = λ d xs w. write_keeps w.plan xs w;
}

relay-Echoes_example : Echoes demo 3 (demo_duplex 3) sock (relay demo 1025 6 sock)
relay-Echoes_example =
    relay-Echoes demo 3 (demo_duplex 3) 1025 6 sock refl (omega arith) (omega arith)

abbrev four_calls : List Op
four_calls = puts (97 ∷ 98 ∷ []) ∷ gets 3 ∷ flushes ∷ gets 9 ∷ []

run-Refines_example : Refines demo 3 (demo_duplex 3) four_calls sock (run demo 9 four_calls sock)
run-Refines_example =
    run-Refines demo 3 (demo_duplex 3) 9 four_calls sock
      (record {
        writer = record { valid = omega arith; opened = refl; at = refl; roomy = omega arith };
        reader = record { valid = omega arith; opened = refl; at = refl; roomy = omega arith };
      })
      (omega arith)

Reaches-Within_example :
    Within 4
      (perform demo 9 (puts (1 ∷ 2 ∷ 3 ∷ 4 ∷ 5 ∷ 6 ∷ [])) (construct 4 3 zeros zeros 0 start)).1
Reaches-Within_example =
    Reaches-Within demo 3 (demo_duplex 3) 9 4 zeros zeros 0 start _ (omega arith) (omega arith) refl
      refl (calls (puts (1 ∷ 2 ∷ 3 ∷ 4 ∷ 5 ∷ 6 ∷ [])) (construct 4 3 zeros zeros 0 start) begins)

-- A system whose `fork` returns the number in its state.
abbrev processes : ForkOs
processes = record {
  World = ℕ;
  fork = λ w. (done w, w);
  kill = λ n signo w. (done tt, w);
  waitpid = λ n w. (done (n, exited 0), w);
  wait_any = λ w. (done (w, exited 0), w);
  wait = λ w. (done 0, w);
  sigaction = λ signo h w. (done tt, w);
  siglist = λ n. [];
}

abbrev no_names : Resolver
no_names = record {
  inet_addr = λ host. 16777343;
  gethostbyname = λ host. none;
  gethostbyaddr = λ addr family. none;
  gethostname = none;
  getservbyname = λ service proto. none;
  getprotobyname = λ proto. none;
}

-- In the parent `fork` returns 7, and in the child 0.
abbrev server : ℕ → Server Wire ℕ
server pid = record {
  buf = sock;
  forks = record { list = []; cerr = []; world = pid };
  cout = [];
  child = false;
}

-- `SIGCHLD` arrives once in each round.
abbrev once : ℕ → ℕ
once round = 1

serve_clients-Serves_example :
    Serves demo processes no_names 9 []
      (serve_clients demo processes no_names 9 once 4 zeros zeros tcp (pos 2000) 2 (server 7))
serve_clients-Serves_example =
    serve_clients-Serves demo processes no_names 9 once 4 zeros zeros tcp (pos 2000) 2 (server 7)
      refl

serve_one-Echoes_example :
    EchoesClient demo processes no_names 1025 4
      (demo_duplex 4)
      (construct 4 4 zeros zeros 0 start)
      (serve_one demo processes no_names 1025 1 4 zeros zeros 5 (server 0))
serve_one-Echoes_example =
    serve_one-Echoes demo processes no_names 1025 4 (demo_duplex 4) (λ w. refl) 1 4 zeros zeros 5
      (server 0) start refl refl (omega arith) (omega arith)
