-- ===== src/Tests/DemoLaws.antt =====
-- The system of `Demo` keeps the laws that the theorems ask for.
use cpr.Common.{
  ℕ, zero, suc, ◌<◌, ◌≡◌, refl, sym, ap, List, [], ◌∷◌, ◌++◌, take, length, arith, take_all,
  take-append-drop, length-take, Bool, true, false, not, is_zero, of_bool, ◌%◌, ◌^◌, ◌≢◌,
}
use cpr.Os.Laws.{Output, Input, Transfers, Delivers}
use cpr.Tests.Demo.{Wire, wire_write, wire_read, demo, wire_bind, wire_setsockopt, flag_in}
use cpr.Os.{Sys}
use cpr.Inet.{getport, from_number}
use cpr.Inet.Ports.{Binds, PortTable, any_port, at_port, getport-from_number}
use cpr.Common.{Bool-cases, inl, inr, ==_iff, ◌==◌, ◌∙◌}
use cpr.Sockbuf.Options.Flags.{
  Flag, debugs, reuses_addr, keeps_alive, ignores_routes, broadcasts, reads_oob_inline, option_of,
  Flags, Stores,
}

abbrev pub sent_of : Wire → ℕ → List ℕ
sent_of w fd = w.sent

abbrev pub incoming_of : Wire → ℕ → List ℕ
incoming_of w fd = w.incoming

pub wire_write-Transfers :
    (plan bs : List ℕ) (w : Wire) (fd : ℕ) → Transfers sent_of fd bs w (wire_write plan bs w)
wire_write-Transfers [] bs w fd =
    (omega arith, (λ h. h), ap (λ xs. w.sent ++ xs) (sym (take_all (length bs) bs (omega arith))))
wire_write-Transfers (zero ∷ plan) bs w fd = refl
wire_write-Transfers (suc k ∷ plan) bs w fd = (omega arith, (λ h. omega arith), refl)

take-nil : (n : ℕ) (xs : List ℕ) → 0 < n → take n xs ≡ [] → xs ≡ []
take-nil zero xs h e = absurd (omega arith)
take-nil (suc n) [] h e = refl
take-nil (suc n) (x ∷ xs) h e = absurd (omega (arith, ap length e))

pub wire_read-Delivers : (n : ℕ) (w : Wire) → Delivers incoming_of 3 n w (wire_read n w)
wire_read-Delivers n w = (
  omega (arith, length-take n w.incoming),
  sym (take-append-drop n w.incoming),
  take-nil n w.incoming,
)

abbrev pub demo_out : Output demo 3
demo_out = record {
  accepted = sent_of;
  write_takes = λ bs w. wire_write-Transfers w.plan bs w 3;
  write_select = λ watch t w. refl;
}

abbrev pub demo_inp : Input demo 3
demo_inp = record {
  pending = incoming_of;
  read_gives = λ n w. wire_read-Delivers n w;
  read_select = λ watch t w. refl;
  read_ioctl = λ r arg w. refl;
}

abbrev pub chosen_port : ℕ → Bool
chosen_port q = q == 40000

abbrev DemoBinds : ℕ → Wire → Sys (Unit {0}) × Wire → Type 0
DemoBinds = Binds (λ w. w.taken) chosen_port (λ w. w.address)

-- `bind` to port 0, and to another one.
bind_any :
    (b : Bool) (p : ℕ) (w : Wire)
    → any_port p ≡ true
    → w.taken 40000 ≡ b
    → DemoBinds p w (wire_bind b (at_port 40000) w)
bind_any true p w z e = rw z (refl, (λ q. refl), (λ _ q c. ap w.taken ((==_iff q 40000).0 c) ∙ e))
bind_any false p w z e = rw z (40000, refl, e, refl)

bind_one :
    (b : Bool) (p : ℕ) (w : Wire)
    → any_port p ≡ false
    → w.taken (p % 2 ^ 16) ≡ b
    → DemoBinds p w (wire_bind b (at_port p) w)
bind_one true p w z e = rw z (refl, (λ q. refl), (λ _. e))
bind_one false p w z e = rw z (e, refl)

pub bind_takes : (p : ℕ) (w : Wire) → DemoBinds p w (demo.bind 3 (at_port p) w)
bind_takes p w =
    let port : getport (from_number 0 p) ≡ p % 2 ^ 16 = getport-from_number 0 p in
    elim (Bool-cases (any_port p)) [
      | inl z ↦ rw (port, z, getport-from_number 0 40000) (bind_any _ p w z refl)
      | inr z ↦ rw (port, z) (bind_one _ p w z (ap w.taken (sym port)))
    ]

abbrev pub demo_ports : PortTable demo 3
demo_ports = record {
  used = λ w. w.taken;
  ephemeral = chosen_port;
  bound = λ w. w.address;
  bind_takes = bind_takes;
}

pub bool_int : (b : Bool) → not (is_zero (of_bool b)) ≡ b
bool_int true = refl
bool_int false = refl

abbrev pub demo_flag : Wire → Flag → Bool
demo_flag w f = flag_in w (option_of f)

-- A change of `so_debug` leaves the other flags alone.
debug_only :
    (b : Bool) (w : Wire) (other : Flag)
    → other ≢ debugs
    → demo_flag (record w { debugging = not (is_zero (of_bool b)) }) other ≡ demo_flag w other
debug_only b w debugs ne = absurd (ne refl)
debug_only b w reuses_addr ne = refl
debug_only b w keeps_alive ne = refl
debug_only b w ignores_routes ne = refl
debug_only b w broadcasts ne = refl
debug_only b w reads_oob_inline ne = refl

pub stores :
    (f : Flag) (b : Bool) (w : Wire)
    → Stores demo_flag f b w (wire_setsockopt (option_of f) (of_bool b ∷ []) w)
stores debugs b w = (bool_int b, debug_only b w)
stores reuses_addr b w = (λ other. refl)
stores keeps_alive b w = (λ other. refl)
stores ignores_routes b w = (λ other. refl)
stores broadcasts b w = (λ other. refl)
stores reads_oob_inline b w = (λ other. refl)

abbrev pub demo_flags : Flags demo 3
demo_flags = record {
  flag = demo_flag;
  getsockopt_reads = λ f w. (bool_int (demo_flag w f), λ other. refl);
  setsockopt_stores = stores;
}
