-- ===== src/Sockbuf/Options/Flags.antt =====
-- The options that are flags (socket++/sockstream.cpp), read and set.
use cpr.Common.{
  ℕ, ◌≡◌, ◌≢◌, refl, sym, ◌∙◌, subst, List, [], ◌∷◌, ℤ, pos, Bool, not, is_zero, of_bool, Result,
  ok, thrown, running, err, written, sockoob, follow, pure, ◌>>◌,
}
use cpr.Os.{
  Os, Sys, done, fails, SockOption, sol_socket, so_debug, so_reuseaddr, so_keepalive, so_dontroute,
  so_broadcast, so_oobinline,
}
use cpr.Sockbuf.State.{Sock, settle, or_throw}
use cpr.Sockbuf.Options.{
  getopt, setopt, int_in, get_flag, swap_flag, debug, set_debug, reuseaddr, set_reuseaddr,
  keepalive, set_keepalive, dontroute, set_dontroute, broadcast, set_broadcast, oobinline,
  set_oobinline,
}

-- The options that a socket keeps as a flag.
pub data Flag : Type 0 where
  debugs reuses_addr keeps_alive ignores_routes broadcasts reads_oob_inline : Flag

-- The option of each flag, as socket(7) has it.
abbrev pub option_of : Flag → SockOption
option_of debugs = so_debug
option_of reuses_addr = so_reuseaddr
option_of keeps_alive = so_keepalive
option_of ignores_routes = so_dontroute
option_of broadcasts = so_broadcast
option_of reads_oob_inline = so_oobinline

module _ {W : Type 0} (flag : W → Flag → Bool) where
  abbrev pub SameFlags : W → W → Type 0
  SameFlags w w' = (op : Flag) → flag w' op ≡ flag w op

  abbrev pub Reads : Flag → W → Sys (List ℤ × ℕ) × W → Type 0
  Reads op w (done old, w') = (not (is_zero (int_in old.0)) ≡ flag w op) × SameFlags w w'
  Reads op w (fails e, w') = SameFlags w w'

  abbrev pub Stores : Flag → Bool → W → Sys (Unit {0}) × W → Type 0
  Stores op b w (done _, w') =
      (flag w' op ≡ b) × ((other : Flag) → other ≢ op → flag w' other ≡ flag w other)
  Stores op b w (fails e, w') = SameFlags w w'

-- What is relied on of these options: each is one int, which is not 0 if the flag is set, and which
-- keeps what it is set to; setting one leaves the others alone.
pub record Flags (os : Os) (fd : ℕ) : Type 0 where
  pub flag : os.World → Flag → Bool
  pub getsockopt_reads :
      (op : Flag) (w : os.World)
      → Reads flag op w (os.getsockopt fd sol_socket (option_of op) (pos 0 ∷ []) w)
  pub setsockopt_stores :
      (op : Flag) (b : Bool) (w : os.World)
      → Stores flag op b w (os.setsockopt fd sol_socket (option_of op) (of_bool b ∷ []) w)

module _ (os : Os) (fd : ℕ) (flags : Flags os fd) where
  abbrev flag_of : Sock os.World → Flag → Bool
  flag_of s = flags.flag s.world

  -- Reading a flag returns it and changes none, or throws the error of `getopt`.
  abbrev pub Got : Flag → Sock os.World → Result Bool × Sock os.World → Type 0
  Got op s (ok b, t) = (b ≡ flag_of s op) × SameFlags flags.flag s.world t.world × (t.rep ≡ s.rep)
  Got op s (thrown (err e), t) =
      (e.operation ≡ "sockbuf::getopt") × SameFlags flags.flag s.world t.world
  Got op s (thrown sockoob, t) = ⊥
  Got op s (thrown (written n), t) = ⊥
  Got op s (running, t) = ⊥

  read_result :
      (op : Flag) (s : Sock os.World) (r : Sys (List ℤ × ℕ) × os.World)
      → Reads flags.flag op s.world r
      → Got op s (
          follow
            (λ old. pure (not (is_zero old)))
            (follow
              (λ old. pure (int_in old.0))
              (let (o, s') = settle s r in or_throw "sockbuf::getopt" o s')))
  read_result op s (done old, w) (e, same) = (e, same, refl)
  read_result op s (fails c, w) same = (refl, same)

  -- Reading a flag, as `debug ()` and the other five do, returns its value, or throws the `err`
  -- of `getopt`, and changes no flag.
  get_flag-Got :
      (op : Flag) (s : Sock os.World) → s.rep.sock ≡ fd → Got op s (get_flag os (option_of op) s)
  unfolding getopt
  get_flag-Got op s at =
      read_result op s (os.getsockopt s.rep.sock sol_socket (option_of op) (pos 0 ∷ []) s.world) (
        subst
          (λ d.
            Reads flags.flag op s.world
              (os.getsockopt d sol_socket (option_of op) (pos 0 ∷ []) s.world))
          (sym at) (flags.getsockopt_reads op s.world))

  -- Setting a flag returns the old value; then the flag is the new one, and the other flags are as
  -- before. A call that throws changes no flag.
  abbrev pub Swapped : Flag → Bool → Sock os.World → Result Bool × Sock os.World → Type 0
  Swapped op b s (ok old, t) =
      (old ≡ flag_of s op)
      × (flag_of t op ≡ b)
      × ((other : Flag) → other ≢ op → flag_of t other ≡ flag_of s other)
      × (t.rep ≡ s.rep)
  Swapped op b s (thrown (err e), t) = SameFlags flags.flag s.world t.world
  Swapped op b s (thrown sockoob, t) = ⊥
  Swapped op b s (thrown (written n), t) = ⊥
  Swapped op b s (running, t) = ⊥

  store_result :
      (op : Flag) (b old : Bool) (s t : Sock os.World) (r : Sys (Unit {0}) × os.World) (n : ℤ)
      → not (is_zero n) ≡ flag_of s op
      → SameFlags flags.flag s.world t.world
      → t.rep ≡ s.rep
      → Stores flags.flag op b t.world r
      → Swapped op b s (
          follow
            (λ old. pure (not (is_zero old)))
            (follow (λ _. pure n) (let (o, s') = settle t r in or_throw "sockbuf::setopt" o s')))
  store_result op b old s t (done _, w) n e same rep (f, others) =
      (e, f, (λ other ne. others other ne ∙ same other), rep)
  store_result op b old s t (fails c, w) n e same rep keeps = λ other. keeps other ∙ same other

  swap_result :
      (op : Flag) (b : Bool) (s : Sock os.World) (r : Sys (List ℤ × ℕ) × os.World)
      → s.rep.sock ≡ fd
      → Reads flags.flag op s.world r
      → Swapped op b s (
          follow
            (λ old. pure (not (is_zero old)))
            (follow
              (λ old. setopt os (option_of op) (of_bool b ∷ []) sol_socket >> pure old)
              (follow
                (λ old. pure (int_in old.0))
                (let (o, s') = settle s r in or_throw "sockbuf::getopt" o s'))))
  unfolding setopt
  swap_result op b s (done old, w) at (e, same) =
      store_result op b (flag_of s op) s (record s { world = w })
        (os.setsockopt s.rep.sock sol_socket (option_of op) (of_bool b ∷ []) w) (int_in old.0) e
        same refl
        (subst
          (λ d.
            Stores flags.flag op b w (os.setsockopt d sol_socket (option_of op) (of_bool b ∷ []) w))
          (sym at) (flags.setsockopt_stores op b w))
  swap_result op b s (fails c, w) at same = same

  -- Setting a flag, as `debug (bool)` and the other five do, returns its old value, and the
  -- flag then has the new one and the other flags are as before. A call that throws, an `err`,
  -- has changed no flag.
  swap_flag-Swapped :
      (op : Flag) (b : Bool) (s : Sock os.World)
      → s.rep.sock ≡ fd
      → Swapped op b s (swap_flag os (option_of op) b s)
  unfolding getopt setopt
  swap_flag-Swapped op b s at =
      swap_result op b s (os.getsockopt s.rep.sock sol_socket (option_of op) (pos 0 ∷ []) s.world)
        at
        (subst
          (λ d.
            Reads flags.flag op s.world
              (os.getsockopt d sol_socket (option_of op) (pos 0 ∷ []) s.world))
          (sym at) (flags.getsockopt_reads op s.world))

  -- Each of `debug`, `reuseaddr`, `keepalive`, `dontroute`, `broadcast` and `oobinline`, on the
  -- flag of its own name: without an argument it returns the flag and changes none of the six;
  -- with a Boolean it returns the flag's old value, and the flag then has the new one and the
  -- other five are as before. A call that throws, an `err`, has changed none. The descriptor is
  -- one whose system keeps each of the six options as a flag of its own.
  pub flag_calls :
      (b : Bool) (s : Sock os.World)
      → s.rep.sock ≡ fd
      → Got debugs s (debug os s)
        × Swapped debugs b s (set_debug os b s)
        × Got reuses_addr s (reuseaddr os s)
        × Swapped reuses_addr b s (set_reuseaddr os b s)
        × Got keeps_alive s (keepalive os s)
        × Swapped keeps_alive b s (set_keepalive os b s)
        × Got ignores_routes s (dontroute os s)
        × Swapped ignores_routes b s (set_dontroute os b s)
        × Got broadcasts s (broadcast os s)
        × Swapped broadcasts b s (set_broadcast os b s)
        × Got reads_oob_inline s (oobinline os s)
        × Swapped reads_oob_inline b s (set_oobinline os b s)
  unfolding debug set_debug reuseaddr set_reuseaddr keepalive set_keepalive dontroute set_dontroute
      broadcast set_broadcast oobinline set_oobinline
  flag_calls b s at = (
    get_flag-Got debugs s at,
    swap_flag-Swapped debugs b s at,
    get_flag-Got reuses_addr s at,
    swap_flag-Swapped reuses_addr b s at,
    get_flag-Got keeps_alive s at,
    swap_flag-Swapped keeps_alive b s at,
    get_flag-Got ignores_routes s at,
    swap_flag-Swapped ignores_routes b s at,
    get_flag-Got broadcasts s at,
    swap_flag-Swapped broadcasts b s at,
    get_flag-Got reads_oob_inline s at,
    swap_flag-Swapped reads_oob_inline b s at,
  )
