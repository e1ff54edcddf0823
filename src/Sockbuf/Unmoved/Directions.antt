-- ===== src/Sockbuf/Unmoved/Directions.antt =====
-- Reading sends nothing, and writing takes nothing (socket++/sockstream.cpp), on a connection whose
-- two directions do not disturb each other.
use cpr.Common.{ℕ, List}
use cpr.Os.{Os}
use cpr.Os.Laws.{Duplex}
use cpr.Sockbuf.Io.{read, write}
use cpr.Sockbuf.Unmoved.{Unmoved, read-Unmoved, write-Unmoved}

module _ (os : Os) (fd : ℕ) (duplex : Duplex os fd) where
  pub read-accepted : (n : ℕ) → Unmoved (λ w. duplex.output.accepted w fd) (read os n)
  read-accepted =
      read-Unmoved os (λ w. duplex.output.accepted w fd)
        (λ watch d t w. (duplex.select_keeps watch d t w).0)
        (λ d r arg w. (duplex.ioctl_keeps d r arg w).0) duplex.read_keeps

  pub write-pending :
      (fuel : ℕ) (bs : List ℕ) → Unmoved (λ w. duplex.input.pending w fd) (write os fuel bs)
  write-pending =
      write-Unmoved os (λ w. duplex.input.pending w fd)
        (λ watch d t w. (duplex.select_keeps watch d t w).1)
        (λ d r arg w. (duplex.ioctl_keeps d r arg w).1) duplex.write_keeps
