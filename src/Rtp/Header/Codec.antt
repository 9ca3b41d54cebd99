-- ===== src/Rtp/Header/Codec.antt =====
-- `DetectCodec`: which first packets it tells apart.
use open_ipc_mobile_gs.Prelude.{ℕ, ◌/◌, ◌%◌, ◌≤◌, ◌<◌, ◌≡◌, ◌≢◌, ◌⊎◌, ap, ◌∙◌, ◌∷◌, arith, Bytes}
use open_ipc_mobile_gs.Rtp.Header.{
  h264, h265, detect_payload, detect_codec, is_h264_start, is_h265_start,
}
use open_ipc_mobile_gs.Rtp.Header.Packet.{RtpPacket, IsPacket, encode_packet, parse_rtp-encode}

pub detect_codec-encode :
    (p : RtpPacket) → IsPacket p → detect_codec (encode_packet p) ≡ detect_payload p.payload
unfolding detect_codec
detect_codec-encode p v =
    let r = parse_rtp-encode p v in rw (r.0, detect_codec) (ap detect_payload r.1)

-- An H.264 packet of the highest priority that starts a key frame is recognised: nal_ref_idc 3,
-- and an IDR slice, a parameter set, an aggregation packet or a fragmentation unit.
pub detect_codec_key_frame :
    (p : RtpPacket) (first second : ℕ) (rest : Bytes)
    → IsPacket p
    → p.payload ≡ first ∷ second ∷ rest
    → first / 32 ≡ 3
    → (first % 32 ≡ 5)
      ⊎ ((first % 32 ≡ 7) ⊎ ((first % 32 ≡ 8) ⊎ ((first % 32 ≡ 24) ⊎ (first % 32 ≡ 28))))
    → detect_codec (encode_packet p) ≡ h264
unfolding detect_payload is_h265_start is_h264_start
detect_codec_key_frame p first second rest v e h k =
    detect_codec-encode p v ∙ ap detect_payload e ∙ ground arith

-- An H.265 packet with the forbidden bit clear, a temporal id and a type that the code lists is
-- recognised.
pub detect_codec_h265 :
    (p : RtpPacket) (first second : ℕ) (rest : Bytes)
    → IsPacket p
    → p.payload ≡ first ∷ second ∷ rest
    → first < 128
    → second % 8 ≢ 0
    → (first / 2 ≤ 40) ⊎ ((first / 2 ≡ 48) ⊎ (first / 2 ≡ 49))
    → detect_codec (encode_packet p) ≡ h265
unfolding detect_payload is_h265_start
detect_codec_h265 p first second rest v e h k t =
    detect_codec-encode p v ∙ ap detect_payload e ∙ ground arith

-- Every H.264 non-IDR slice, of any nal_ref_idc, whose second byte is no multiple of 8 is taken
-- for H.265: its first byte reads as H.265 type 0, 16, 32 or 48.
pub detect_codec_slice :
    (p : RtpPacket) (first second : ℕ) (rest : Bytes)
    → IsPacket p
    → p.payload ≡ first ∷ second ∷ rest
    → first < 128
    → first % 32 ≡ 1
    → second % 8 ≢ 0
    → detect_codec (encode_packet p) ≡ h265
detect_codec_slice p first second rest v e h s k =
    detect_codec_h265 p first second rest v e h k (ground arith)
