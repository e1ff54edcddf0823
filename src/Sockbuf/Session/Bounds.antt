-- ===== src/Sockbuf/Session/Bounds.antt =====
-- The pointers of a `sockbuf` (socket++/sockstream.cpp) stay within its buffers, whatever a program
-- calls and whichever exceptions it catches.
use cpr.Common.{
  ℕ, ◌≤◌, ◌<◌, ◌≡◌, refl, ap, ◌∙◌, List, Result, ok, thrown, running, length, arith, subst, Option,
  none, some, true,
}
use cpr.Os.{Os}
use cpr.Os.Laws.{Duplex}
use cpr.Sockbuf.State.{Sock, GetArea, PutArea, construct}
use cpr.Sockbuf.Session.{Op, perform}
use cpr.Sockbuf.Session.Calls.{IsOpen, Performs, perform-Performs}
use cpr.Sockbuf.Output.Area.{PutValid, is_open}
use cpr.Sockbuf.Input.Area.{GetValid, can_read}

-- The states that a program reaches from `s` by calls, returning or caught.
module _ (os : Os) (fuel : ℕ) where
  pub data Reaches (s : Sock os.World) : Sock os.World → Type 0 where
    begins : Reaches s s
    calls : (op : Op) (t : Sock os.World) → Reaches s t → Reaches s (perform os fuel op t).1

-- Both areas are there. `pptr ()` is at most `epptr ()`, which is the end of the buffer's memory, and
-- `gptr ()` at most `egptr ()`, and that at most the end.
abbrev pub PutWithin : ℕ → Option PutArea → Type 0
PutWithin n none = ⊥
PutWithin n (some p) = (p.pptr ≤ p.epptr) × (p.epptr ≡ n) × (length p.pmem ≡ n)

abbrev pub GetWithin : ℕ → Option GetArea → Type 0
GetWithin n none = ⊥
GetWithin n (some g) = (g.gptr ≤ g.egptr) × (g.egptr ≤ n) × (length g.gmem ≡ n)

abbrev pub Within : {W : Type 0} → ℕ → Sock W → Type 0
Within n s = PutWithin n s.put × GetWithin n s.get

put_within : (n : ℕ) (o : Option PutArea) → PutValid n o → is_open o ≡ true → PutWithin n o
put_within n none v e = cc
put_within n (some p) v e = (omega arith, v.ends, v.sized)

get_within : (n : ℕ) (o : Option GetArea) → GetValid n o → can_read o ≡ true → GetWithin n o
get_within n none v e = cc
get_within n (some g) v e = (v.ordered, v.within, v.sized)

module _ (os : Os) (fd : ℕ) (duplex : Duplex os fd) where
  pub construct-IsOpen :
      (bufsiz : ℕ) (gbuf pbuf : List ℕ) (errno : ℕ) (w : os.World)
      → 0 < bufsiz
      → length gbuf ≡ bufsiz
      → length pbuf ≡ bufsiz
      → IsOpen os fd duplex (construct bufsiz fd gbuf pbuf errno w)
  unfolding construct
  construct-IsOpen bufsiz gbuf pbuf errno w h g p = record {
    writer = record {
      valid = record { sized = p; ends = refl; within = omega arith };
      opened = refl;
      at = refl;
      roomy = h;
    };
    reader = record {
      valid = record { sized = g; within = omega arith; ordered = omega arith };
      opened = refl;
      at = refl;
      roomy = h;
    };
  }

  -- A call keeps the object open, however it ends.
  ended-IsOpen :
      (op : Op) (s : Sock os.World) (r : Result (List ℕ) × Sock os.World)
      → Performs os fd duplex op s r
      → IsOpen os fd duplex r.1 × (r.1.rep ≡ s.rep)
  ended-IsOpen op s (ok xs, t) (h, x, w, o, rep) = (o, rep)
  ended-IsOpen op s (thrown e, t) (p, o, rep) = (o, rep)
  ended-IsOpen op s (running, t) p = absurd p

  Reaches-IsOpen :
      (fuel : ℕ) (s t : Sock os.World)
      → IsOpen os fd duplex s
      → s.rep.pend < fuel
      → Reaches os fuel s t
      → IsOpen os fd duplex t × (t.rep ≡ s.rep)
  Reaches-IsOpen fuel s t o f begins = (o, refl)
  Reaches-IsOpen fuel s t o f (calls op u reaches) =
      let (o', rep) = Reaches-IsOpen fuel s u o f reaches in
      let (o'', rep') =
        ended-IsOpen op u (perform os fuel op u)
          (perform-Performs os fd duplex fuel op u o' (omega (arith, ap (λ r. r.pend) rep))) in
      (o'', rep' ∙ rep)

  -- In every state that a program reaches from a new `sockbuf` by `xsputn`, `sync` and
  -- `xsgetn`, going on behind those that throw, for buffers of a size above 0 and fuel above
  -- it, `pptr ()` is at most `epptr ()`, which is the end of the put area's memory, and `gptr
  -- ()` is at most `egptr ()`, and that at most the end of the get area's memory; neither
  -- memory has grown.
  pub Reaches-Within :
      (fuel bufsiz : ℕ) (gbuf pbuf : List ℕ) (errno : ℕ) (w : os.World) (t : Sock os.World)
      → 0 < bufsiz
      → bufsiz < fuel
      → length gbuf ≡ bufsiz
      → length pbuf ≡ bufsiz
      → Reaches os fuel (construct bufsiz fd gbuf pbuf errno w) t
      → Within bufsiz t
  unfolding construct
  Reaches-Within fuel bufsiz gbuf pbuf errno w t h f g p reaches =
      let s : Sock os.World = construct bufsiz fd gbuf pbuf errno w in
      let (o, rep) =
        Reaches-IsOpen fuel s t (construct-IsOpen bufsiz gbuf pbuf errno w h g p) f reaches in
      (
        put_within bufsiz t.put
            (subst (λ n. PutValid n t.put) (ap (λ r. r.pend) rep) o.writer.valid) o.writer.opened,
        get_within bufsiz t.get
            (subst (λ n. GetValid n t.get) (ap (λ r. r.gend) rep) o.reader.valid) o.reader.opened,
      )
