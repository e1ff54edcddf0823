-- ===== src/Streams.antt =====
-- The stream classes (socket++/sockstream.h, sockinet.h, sockinet.cpp, sockunix.h, sockunix.cpp): a
-- socket buffer and a stream of the standard library on it. A constructor takes a descriptor, the kind
-- of a socket to be opened, or a buffer that it copies.
pub mod Fresh
use cpr.Common.{ℕ, List, Result, ok, thrown, running}
use cpr.Os.{Os}
use cpr.Sockbuf.State.{Sock, construct}
use cpr.Sockbuf.Lifecycle.{copy_construct, open_socket}
use cpr.Inet.{af_inet}
use cpr.Unix.{open_unix}

-- The base class: `isockstream`, `osockstream` or `iosockstream`.
pub data Base : Type 0 where
  isockstream osockstream iosockstream : Base

-- A stream whose buffer is part of the object.
pub record Stream (W : Type 0) : Type 0 where
  pub base : Base
  pub buf : Sock W

-- What a constructor that opens a socket returns, with errno and the system.
abbrev pub Opened : Type 0 → Type 0
Opened W = Result (Stream W) × (ℕ × W)

abbrev pub on_stream : {W : Type 0} → Base → Result (Sock W) × (ℕ × W) → Opened W
on_stream b (ok s, x) = (ok (record { base = b; buf = s }), x)
on_stream b (thrown e, x) = (thrown e, x)
on_stream b (running, x) = (running, x)

-- `sockinetbuf` and `sockunixbuf` from a descriptor, and from another buffer.
unfoldable pub sockinetbuf : {W : Type 0} → ℕ → ℕ → List ℕ → List ℕ → ℕ → W → Sock W
sockinetbuf = construct

unfoldable pub sockinetbuf_copy : {W : Type 0} → Sock W → Sock W
sockinetbuf_copy si = copy_construct si

unfoldable pub sockunixbuf : {W : Type 0} → ℕ → ℕ → List ℕ → List ℕ → ℕ → W → Sock W
sockunixbuf = construct

unfoldable pub sockunixbuf_copy : {W : Type 0} → Sock W → Sock W
sockunixbuf_copy su = copy_construct su

-- `sockinetbuf (ty, proto)`
unfoldable pub open_inet :
    (os : Os) → ℕ → List ℕ → List ℕ → ℕ → ℕ → ℕ → os.World → Result (Sock os.World) × (ℕ × os.World)
open_inet os bufsiz gbuf pbuf ty proto errno w =
    open_socket os bufsiz gbuf pbuf af_inet ty proto errno w

module _ {W : Type 0} (bufsiz : ℕ) (gbuf pbuf : List ℕ) where
  -- A stream on a new buffer for the descriptor `sd`.
  abbrev pub on_desc : (ℕ → ℕ → List ℕ → List ℕ → ℕ → W → Sock W) → Base → ℕ → ℕ → W → Stream W
  on_desc make b sd errno w = record { base = b; buf = make bufsiz sd gbuf pbuf errno w }

  unfoldable pub isockinet : ℕ → ℕ → W → Stream W
  isockinet = on_desc sockinetbuf isockstream

  unfoldable pub osockinet : ℕ → ℕ → W → Stream W
  osockinet = on_desc sockinetbuf osockstream

  unfoldable pub iosockinet : ℕ → ℕ → W → Stream W
  iosockinet = on_desc sockinetbuf iosockstream

  unfoldable pub isockunix : ℕ → ℕ → W → Stream W
  isockunix = on_desc sockunixbuf isockstream

  unfoldable pub osockunix : ℕ → ℕ → W → Stream W
  osockunix = on_desc sockunixbuf osockstream

  unfoldable pub iosockunix : ℕ → ℕ → W → Stream W
  iosockunix = on_desc sockunixbuf iosockstream

module _ {W : Type 0} where
  -- A stream on a copy of a buffer.
  unfoldable pub isockinet_copy : Sock W → Stream W
  isockinet_copy sb = record { base = isockstream; buf = sockinetbuf_copy sb }

  unfoldable pub osockinet_copy : Sock W → Stream W
  osockinet_copy sb = record { base = osockstream; buf = sockinetbuf_copy sb }

  unfoldable pub iosockinet_copy : Sock W → Stream W
  iosockinet_copy sb = record { base = iosockstream; buf = sockinetbuf_copy sb }

  unfoldable pub isockunix_copy : Sock W → Stream W
  isockunix_copy sb = record { base = isockstream; buf = sockunixbuf_copy sb }

  unfoldable pub osockunix_copy : Sock W → Stream W
  osockunix_copy sb = record { base = osockstream; buf = sockunixbuf_copy sb }

  unfoldable pub iosockunix_copy : Sock W → Stream W
  iosockunix_copy sb = record { base = iosockstream; buf = sockunixbuf_copy sb }

module _ (os : Os) (bufsiz : ℕ) (gbuf pbuf : List ℕ) where
  -- A stream on a socket that is opened, of type `ty`.
  unfoldable pub open_isockinet : ℕ → ℕ → ℕ → os.World → Opened os.World
  open_isockinet ty proto errno w =
      on_stream isockstream (open_inet os bufsiz gbuf pbuf ty proto errno w)

  unfoldable pub open_osockinet : ℕ → ℕ → ℕ → os.World → Opened os.World
  open_osockinet ty proto errno w =
      on_stream osockstream (open_inet os bufsiz gbuf pbuf ty proto errno w)

  unfoldable pub open_iosockinet : ℕ → ℕ → ℕ → os.World → Opened os.World
  open_iosockinet ty proto errno w =
      on_stream iosockstream (open_inet os bufsiz gbuf pbuf ty proto errno w)

  unfoldable pub open_isockunix : ℕ → ℕ → ℕ → os.World → Opened os.World
  open_isockunix ty proto errno w =
      on_stream isockstream (open_unix os bufsiz gbuf pbuf ty proto errno w)

  unfoldable pub open_osockunix : ℕ → ℕ → ℕ → os.World → Opened os.World
  open_osockunix ty proto errno w =
      on_stream osockstream (open_unix os bufsiz gbuf pbuf ty proto errno w)

  unfoldable pub open_iosockunix : ℕ → ℕ → ℕ → os.World → Opened os.World
  open_iosockunix ty proto errno w =
      on_stream iosockstream (open_unix os bufsiz gbuf pbuf ty proto errno w)
