-- ===== src/Rtp/Depacketizer/Loss.antt =====
-- Lost packets: a fragmented NAL unit with a hole is never handed to the decoder.
use open_ipc_mobile_gs.Prelude.{ℕ, ◌<◌, ◌≡◌, List, [], ◌∷◌, Bytes, Bool, false, add64}
use open_ipc_mobile_gs.Rtp.Header.{VideoCodec}
use open_ipc_mobile_gs.Rtp.Header.Packet.{RtpPacket, IsPacket}
use open_ipc_mobile_gs.Rtp.Depacketizer.{RtpDepacketizer}
use open_ipc_mobile_gs.Rtp.Depacketizer.Fragment.Parts.{Fragments, fragment_packet}

-- A fragment that does not begin a unit.
pub record Continuation : Type 0 where
  pub sequence : ℕ
  pub end : Bool
  pub chunk : Bytes

abbrev pub AreNumbered : List Continuation → Type 0
AreNumbered [] = Unit
AreNumbered (k ∷ ks) = (k.sequence < 65536) × AreNumbered ks

-- After continuations that were not taken: nothing emitted, no unit in flight, all counted.
pub record Refused (d r : RtpDepacketizer) (count : ℕ) : Type 0 where
  pub codec : r.codec ≡ d.codec
  pub idle : r.in_fragment ≡ false
  pub emitted : r.emitted ≡ d.emitted
  pub nals : r.nals ≡ d.nals
  pub broken : r.broken_fragments ≡ add64 d.broken_fragments count

module _ (p : RtpPacket) (v : IsPacket p) {c : VideoCodec} {nal front : Bytes} {type : ℕ}
    (f : Fragments c nal front type) where
  abbrev pub continuation_packets : List Continuation → List RtpPacket
  continuation_packets [] = []
  continuation_packets (k ∷ ks) =
      fragment_packet p front type k.sequence false k.end k.chunk ∷ continuation_packets ks
