-- ===== src/Smtp/Stream.antt =====
-- The class `smtp` (socket++/smtp.h, socket++/smtp.cpp), a stream on an `smtpbuf`, with its functions
-- that read the lines of replies. `std::istream::getline` stores the characters up to a newline, which
-- it takes and does not store, or as many as there is room for, and a NUL. What the stream buffer
-- throws, it turns into `badbit`. Lengths are not negative.
pub mod Array
pub mod Getline
pub mod Response
pub mod Printed
use cpr.Common.{
  ℕ, zero, suc, ◌-◌, List, [], ◌∷◌, ◌++◌, Option, none, some, Bool, true, false, not, ◌&&◌, ◌||◌,
  ◌==◌, ltb, Action, Result, ok, thrown, running, pure, out_of_fuel, follow, ◌>>=◌, if◌then◌else◌,
  get_or, set, memcpy,
}
use cpr.Os.{Os}
use cpr.Sockbuf.State.{Sock}
use cpr.Sockbuf.Buffer.{underflow, gbump}
use cpr.Sockbuf.Lifecycle.{destroy}
use cpr.Smtp.{Smtp}

-- The stream: its buffer, and `eofbit`, `failbit` and `badbit`.
pub record SmtpStream (W : Type 0) : Type 0 where
  pub smtpbuf : Smtp W
  pub eofbit : Bool
  pub failbit : Bool
  pub badbit : Bool

-- `std::ios::init (new smtpbuf (out))`
unfoldable pub smtp : {W : Type 0} → Smtp W → SmtpStream W
smtp b = record { smtpbuf = b; eofbit = false; failbit = false; badbit = false }

-- Why `getline` stops: at the end of the input, at a newline, without room, or at an exception.
-- `at_running` is a call of the buffer that does not return.
pub data Stop : Type 0 where
  at_end at_delim at_full at_throw at_running : Stop

-- What was stored, why it was not more, and the buffer.
abbrev pub Line : Type 0 → Type 0
Line W = List ℕ × Stop × Sock W

abbrev pub stored : {W : Type 0} → ℕ → Line W → Line W
stored c (xs, stop, t) = (c ∷ xs, stop, t)

-- The next character, which is not taken, decides.
abbrev pub peeked : {W : Type 0} → (ℕ → Sock W → Line W) → Result (Option ℕ) × Sock W → Line W
peeked other (ok none, s) = ([], at_end, s)
peeked other (ok (some c), s) = if c == 10 then ([], at_delim, gbump 1 s) else other c s
peeked other (thrown e, s) = ([], at_throw, s)
peeked other (running, s) = ([], at_running, s)

-- What `getline` sets for the number of characters that it has taken.
abbrev pub failed : List ℕ → Stop → Bool
failed xs at_delim = false
failed xs at_full = true
failed [] at_end = true
failed (x ∷ xs) at_end = false
failed [] at_throw = true
failed (x ∷ xs) at_throw = false
failed xs at_running = false

abbrev pub is_end : Stop → Bool
is_end at_end = true
is_end at_delim = false
is_end at_full = false
is_end at_throw = false
is_end at_running = false

abbrev pub is_throw : Stop → Bool
is_throw at_end = false
is_throw at_delim = false
is_throw at_full = false
is_throw at_throw = true
is_throw at_running = false

abbrev pub ended_as : Stop → Result (Unit {0})
ended_as at_end = ok tt
ended_as at_delim = ok tt
ended_as at_full = ok tt
ended_as at_throw = ok tt
ended_as at_running = running

-- The array behind a call that has stored `xs`: `len` is its length.
abbrev pub terminated : List ℕ → ℕ → List ℕ → List ℕ
terminated buf zero xs = buf
terminated buf (suc len) xs = memcpy buf 0 (xs ++ 0 ∷ [])

-- The string that an array holds.
abbrev pub c_str : List ℕ → List ℕ
c_str [] = []
c_str (zero ∷ cs) = []
c_str (suc c ∷ cs) = suc c ∷ c_str cs

-- What `output << buf << endl` prints.
unfoldable pub printed : List ℕ → List ℕ
printed buf = c_str buf ++ 10 ∷ []

module _ {W : Type 0} where
  abbrev pub good : SmtpStream W → Bool
  good s = not (s.eofbit || s.failbit || s.badbit)

  abbrev pub with_buf : {A : Type 0} → SmtpStream W → Result A × Sock W → Result A × SmtpStream W
  with_buf s (r, b) = (r, record s { smtpbuf = record s.smtpbuf { buf = b } })

  abbrev pub after_line : List ℕ → ℕ → SmtpStream W → Line W → Result (List ℕ) × SmtpStream W
  after_line buf len s (xs, stop, t) = (
    (elim (ended_as stop) [
      | ok _ ↦ ok (terminated buf len xs)
      | thrown e ↦ thrown e
      | running ↦ running
    ]),
    record {
      smtpbuf = record s.smtpbuf { buf = t };
      eofbit = is_end stop;
      failbit = failed xs stop;
      badbit = is_throw stop;
    },
  )

module _ (os : Os) where
  -- The loop of `getline`, with `room` characters left before the NUL.
  unfoldable pub getline_loop : ℕ → Sock os.World → Line os.World
  getline_loop zero s = peeked (λ c t. ([], at_full, t)) (underflow os s)
  getline_loop (suc room) s =
      peeked (λ c t. stored c (getline_loop room (gbump 1 t))) (underflow os s)

  -- `getline (buf, len)`: the array behind it.
  unfoldable pub getline : List ℕ → ℕ → Action (SmtpStream os.World) (List ℕ)
  getline buf len s =
      if good s
      then after_line buf len s (getline_loop (len - 1) s.smtpbuf.buf)
      else (ok (terminated buf len []), record s { failbit = true })

  -- `get_response (buf, len)`: the array behind it, and whether output continues after this line.
  unfoldable pub get_line_response : List ℕ → ℕ → Action (SmtpStream os.World) (List ℕ × Bool)
  get_line_response buf len =
      if ltb len 8
      then (do line ← getline buf len; pure (line, false))
      else (do line ← getline (set buf 3 0) len; pure (line, get_or line 3 0 == b'-'))

  -- `delete std::ios::rdbuf (); std::ios::init (0);`, behind which the stream has no buffer.
  unfoldable pub destroy_smtp : ℕ → Action (SmtpStream os.World) (Unit {0})
  destroy_smtp fuel s =
      follow (λ _ t. (ok tt, record t { eofbit = false; failbit = false; badbit = true }))
        (with_buf s (destroy os fuel 1 s.smtpbuf.buf))

  -- The loop of `operator <<`: what goes to `output`. `buf` is the local array.
  unfoldable pub print_response : ℕ → List ℕ → Action (SmtpStream os.World) (List ℕ)
  print_response zero buf = out_of_fuel
  print_response (suc fuel) buf = do
    (line, cont) ← get_line_response buf 1024
    if cont
        then (do rest ← print_response fuel line; pure (printed line ++ rest))
        else pure (printed line)
