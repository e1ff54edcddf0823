-- ===== src/Streams/Fresh.antt =====
-- The streams that take a buffer (socket++/sockinet.cpp, socket++/sockunix.cpp) work on a copy of it.
use cpr.Common.{ℕ, suc, ◌≡◌, List, [], ◌∷◌, ok}
use cpr.Os.{Os}
use cpr.Sockbuf.State.{Sock}
use cpr.Sockbuf.Buffer.{xsputn, sync, xsgetn}
use cpr.Sockbuf.Output.Ending.{copy_construct-mute}
use cpr.Streams.{
  Stream, isockinet_copy, osockinet_copy, iosockinet_copy, isockunix_copy, osockunix_copy,
  iosockunix_copy, sockinetbuf_copy, sockunixbuf_copy,
}

module _ (os : Os) where
  -- Nothing can be put to a stream nor taken from it.
  abbrev pub IsMute : Stream os.World → Type 0
  IsMute s =
      (fuel rounds c n : ℕ) (bs : List ℕ)
      → (xsputn os fuel (suc rounds) (c ∷ bs) s.buf ≡ (ok 0, s.buf))
        × (sync os fuel s.buf ≡ (ok 0, s.buf))
        × (xsgetn os (suc rounds) (suc n) s.buf ≡ (ok ([], 0), s.buf))

  pub copy-IsMute :
      (sb : Sock os.World)
      → IsMute (isockinet_copy sb)
        × IsMute (osockinet_copy sb)
        × IsMute (iosockinet_copy sb)
        × IsMute (isockunix_copy sb)
        × IsMute (osockunix_copy sb)
        × IsMute (iosockunix_copy sb)
  unfolding isockinet_copy osockinet_copy iosockinet_copy isockunix_copy osockunix_copy
      iosockunix_copy sockinetbuf_copy sockunixbuf_copy
  copy-IsMute sb =
      let mute =
        λ (fuel rounds c n : ℕ) (bs : List ℕ). copy_construct-mute os fuel rounds c n bs sb in
      (mute, mute, mute, mute, mute, mute)
