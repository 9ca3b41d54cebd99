-- ===== src/Rtp/Header.antt =====
-- `ParseRtp`, `PayloadSize` and `DetectCodec` (core/src/rtp/depacketizer.cpp). A packet is the list
-- of its bytes, so `size` is its length.
pub mod Layout
pub mod Packet
pub mod Codec
use open_ipc_mobile_gs.Prelude.{
  ℕ, ◌+◌, ◌-◌, ◌*◌, ◌/◌, ◌%◌, Bool, true, false, not, ◌&&◌, ◌||◌, Option, none, some, ltb, leb,
  ◌==◌, if◌then◌else◌, length, take, drop, Bytes, byte, bit_set, be16, be32,
}

abbrev pub rtp_header_size : ℕ
rtp_header_size = 12

pub record RtpHeader : Type 0 where
  pub payload_type : ℕ
  pub sequence : ℕ
  pub timestamp : ℕ
  pub marker : Bool
  pub payload_offset : ℕ

-- The `if (extension)` block: the offset behind the extension, `none` for `return false`.
unfoldable pub skip_extension : Bytes → ℕ → Option ℕ
skip_extension packet offset =
    let after = offset + (4 + be16 (byte packet (offset + 2)) (byte packet (offset + 3)) * 4) in
    if bit_set (byte packet 0) 16
    then if ltb (length packet) (offset + 4)
      then none
      else if ltb (length packet) after
      then none
      else some after
    else some offset

-- The `if (padding)` block: whether it lets the packet pass.
unfoldable pub padding_fits : Bytes → ℕ → Bool
padding_fits packet offset =
    let pad = byte packet (length packet - 1) in
    if bit_set (byte packet 0) 32
    then not (length packet == 0) && not (pad == 0 || ltb (length packet) (offset + pad))
    else true

unfoldable pub header_at : Bytes → ℕ → RtpHeader
header_at packet offset = record {
  payload_type = byte packet 1 % 128;
  sequence = be16 (byte packet 2) (byte packet 3);
  timestamp = be32 (byte packet 4) (byte packet 5) (byte packet 6) (byte packet 7);
  marker = bit_set (byte packet 1) 128;
  payload_offset = offset;
}

unfoldable pub parse_rtp : Bytes → Option RtpHeader
parse_rtp packet =
    let offset = rtp_header_size + byte packet 0 % 16 * 4 in
    if ltb (length packet) rtp_header_size
    then none
    else if not (byte packet 0 / 64 % 4 == 2)
    then none
    else if ltb (length packet) offset
    then none
    else elim (skip_extension packet offset) [
      | none ↦ none
      | some after ↦ if padding_fits packet after then some (header_at packet after) else none
    ]

unfoldable pub payload_size : Bytes → ℕ → ℕ
payload_size packet offset =
    let size = length packet in
    let pad = byte packet (size - 1) in
    let end =
      if bit_set (byte packet 0) 32 && ltb 0 size
      then if ltb 0 pad && leb (offset + pad) size then size - pad else size
      else size in
    if ltb offset end then end - offset else 0

-- `data + payload_offset`, `payload_size` bytes of it.
abbrev pub payload_at : Bytes → ℕ → Bytes
payload_at packet offset = take (payload_size packet offset) (drop offset packet)

pub data VideoCodec : Type 0 where
  unknown h264 h265 : VideoCodec

unfoldable pub is_h265_start : ℕ → ℕ → Bool
is_h265_start first second =
    let h265_type = first / 2 % 64 in
    not (bit_set first 128)
    && not (second % 8 == 0)
    && (leb h265_type 40 || h265_type == 48 || h265_type == 49)

unfoldable pub is_h264_start : ℕ → Bool
is_h264_start first =
    let h264_type = first % 32 in
    not (bit_set first 128)
    && not (h264_type == 0)
    && (leb h264_type 23 || h264_type == 24 || h264_type == 28)

unfoldable pub detect_payload : Bytes → VideoCodec
unfolding is_h265_start is_h264_start
detect_payload payload =
    if ltb (length payload) 2
    then unknown
    else if is_h265_start (byte payload 0) (byte payload 1)
    then h265
    else if is_h264_start (byte payload 0)
    then h264
    else unknown

unfoldable pub detect_codec : Bytes → VideoCodec
unfolding detect_payload
detect_codec packet = elim (parse_rtp packet) [
  | none ↦ unknown
  | some header ↦ detect_payload (payload_at packet header.payload_offset)
]
