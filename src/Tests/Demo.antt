-- ===== src/Tests/Demo.antt =====
-- A small operating system, with which the models run: one stream in each direction, and a plan that
-- says how many bytes each `write` may take, 0 being a failure.
use cpr.Common.{
  ℕ, zero, suc, List, [], ◌∷◌, ◌++◌, pos, min, take, drop, length, Option, none, some, ℤ, Bool,
  true, false, not, is_zero, of_bool, ◌==◌,
}
use cpr.Os.{unix, SockOption, so_debug, Os, done, fails, Call, SockAddr, inet}
use cpr.Inet.{getport, from_number}
use cpr.Sockbuf.Options.{int_in}

pub record Wire : Type 0 where
  pub sent : List ℕ
  pub incoming : List ℕ
  pub plan : List ℕ
  -- The ports that other sockets use, the address of this one, its peer, and its flag `so_debug`.
  pub taken : ℕ → Bool
  pub address : Option SockAddr
  pub peer : Option SockAddr
  pub debugging : Bool

abbrev pub wire_write : List ℕ → List ℕ → Call Wire ℕ
wire_write [] bs w = (done (length bs), record w { sent = w.sent ++ bs })
wire_write (zero ∷ plan) bs w = (fails 32, record w { plan = plan })
wire_write (suc k ∷ plan) bs w = (
  done (min (suc k) (length bs)),
  record w { sent = w.sent ++ take (min (suc k) (length bs)) bs; plan = plan },
)

abbrev pub wire_read : ℕ → Call Wire (List ℕ)
wire_read n w = (done (take n w.incoming), record w { incoming = drop n w.incoming })

abbrev pub quiet : {A : Type 0} → A → Call Wire A
quiet a w = (done a, w)

abbrev pub nowhere : SockAddr
nowhere = inet (record { sin_family = 2; sin_port = 0; sin_addr = 0 })

-- `bind` to a port that is taken or not.
abbrev pub wire_bind : Bool → SockAddr → Call Wire (Unit {0})
wire_bind true a w = (fails 98, w)
wire_bind false a w = (done tt, record w { address = some a })

abbrev pub port_in : SockAddr → ℕ
port_in (inet sa) = getport sa
port_in (unix path) = 0

-- The address that the system chooses for port 0 is that of 40000.
abbrev pub chosen : Bool → SockAddr → SockAddr
chosen true a = inet (from_number 0 40000)
chosen false a = a

abbrev pub flag_in : Wire → SockOption → Bool
flag_in w op = elim op [ so_debug ↦ w.debugging | _ ↦ false ]

abbrev pub wire_setsockopt : SockOption → List ℤ → Call Wire (Unit {0})
wire_setsockopt op buf w = elim op [
  | so_debug ↦ (done tt, record w { debugging = not (is_zero (int_in buf)) })
  | _ ↦ (fails 92, w)
]

abbrev pub demo : Os
demo = record {
  World = Wire;
  Msghdr = ℕ;
  socket = λ d t p. quiet 3;
  close = λ fd. quiet tt;
  bind = λ fd a w. let a' = chosen (port_in a == 0) a in wire_bind (w.taken (port_in a')) a' w;
  connect = λ fd a w. (done tt, record w { peer = some a });
  listen = λ fd n. quiet tt;
  accept = λ fd. quiet 4;
  read = λ fd n. wire_read n;
  recv = λ fd n flags. wire_read n;
  recvfrom = λ fd n flags. quiet ([], nowhere);
  recvmsg = λ fd m flags. quiet (0, m);
  write = λ fd bs w. wire_write w.plan bs w;
  send = λ fd bs flags w. wire_write w.plan bs w;
  sendto = λ fd bs flags a w. wire_write w.plan bs w;
  sendmsg = λ fd m flags. quiet 0;
  select = λ watch fd t. quiet 1;
  shutdown = λ fd h. quiet tt;
  getsockopt = λ fd l o buf w. (done (of_bool (flag_in w o) ∷ [], 4), w);
  setsockopt = λ fd l o buf w. wire_setsockopt o buf w;
  ioctl = λ fd r arg. quiet (pos 0);
  getsockname = λ fd. quiet nowhere;
  getpeername = λ fd. quiet nowhere;
}

abbrev pub start : Wire
start = record {
  sent = [];
  incoming = 104 ∷ 101 ∷ 108 ∷ 108 ∷ 111 ∷ [];
  plan = 3 ∷ 0 ∷ [];
  taken = λ p. p == 80;
  address = none;
  peer = none;
  debugging = false;
}
