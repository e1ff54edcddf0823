-- ===== src/Filelike/Alike/Io.antt =====
-- `write` of a `filelikebuf` and of a `sockbuf` (socket++/filelikebuf.cpp, sockstream.cpp).
use cpr.Common.{subst, ℕ, zero, suc, ◌+◌, ◌≡◌, refl, List, [], ◌∷◌, some, drop}
use cpr.Os.{Os, Sys, done, fails}
use cpr.Sockbuf.State.{Sock}
use cpr.Sockbuf.Io as Sockbuf
use cpr.Sockbuf.Io.{throw_at_mark, transmit, before_read, before_write}
use cpr.Filelike.Io.{write, write_loop}
use cpr.Filelike.Alike.{of_sock, Plain, Alike}

module _ (os : Os) where
  write_round-Alike :
      (fuel b : ℕ) (bs : List ℕ) (wlen : ℕ) (s : Sock os.World) (v : Sys ℕ × os.World)
      → os.write s.rep.sock (b ∷ bs) s.world ≡ v
      → Plain s.rep
      → ((xs : List ℕ) (n : ℕ) (t : Sock os.World)
          → Plain t.rep
          → t.rep.sock ≡ s.rep.sock
          → Alike
              (some (write_loop os fuel xs n (of_sock t)))
              (transmit os (os.write s.rep.sock) fuel xs n t))
      → Alike
          (some (write_loop os (suc fuel) (b ∷ bs) wlen (of_sock s)))
          (transmit os (os.write s.rep.sock) (suc fuel) (b ∷ bs) wlen s)
  unfolding write_loop transmit Alike
  write_round-Alike fuel b bs wlen s (done n, w) e p ih =
      rw e (ih (drop n (b ∷ bs)) (wlen + n) (record s { world = w }) p refl)
  write_round-Alike fuel b bs wlen s (fails x, w) e p ih = rw e (refl, p, refl)

  write_loop-Alike :
      (fuel : ℕ) (bs : List ℕ) (wlen : ℕ) (s : Sock os.World) (d : ℕ)
      → Plain s.rep
      → s.rep.sock ≡ d
      → Alike
          (some (write_loop os fuel bs wlen (of_sock s)))
          (transmit os (os.write d) fuel bs wlen s)
  unfolding write_loop transmit Alike
  write_loop-Alike zero bs wlen s d p at = (p, refl)
  write_loop-Alike (suc fuel) [] wlen s d p at = (refl, p, refl)
  write_loop-Alike (suc fuel) (b ∷ bs) wlen s d p at =
      subst
        (λ n.
          Alike (some (write_loop os (suc fuel) (b ∷ bs) wlen (of_sock s)))
            (transmit os (os.write n) (suc fuel) (b ∷ bs) wlen s))
        at
        (write_round-Alike fuel b bs wlen s _ refl p
          (λ xs n t q e. write_loop-Alike fuel xs n t s.rep.sock q e))

  -- The steps before a transfer do nothing.
  pub write-Alike :
      (fuel : ℕ) (bs : List ℕ) (s : Sock os.World)
      → Plain s.rep
      → Alike (some (write os fuel bs (of_sock s))) (Sockbuf.write os fuel bs s)
  unfolding write Sockbuf.write before_write
  write-Alike fuel bs s p = rw p.no_stmo (write_loop-Alike fuel bs 0 s s.rep.sock p refl)
