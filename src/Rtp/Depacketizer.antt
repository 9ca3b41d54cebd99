-- ===== src/Rtp/Depacketizer.antt =====
-- `RtpDepacketizer` (core/src/rtp/depacketizer.cpp): RTP packets to Annex-B NAL units.
-- A payload is the list of its bytes. `emitted` logs the calls of `callback_`, oldest first.
pub mod Aggregate
pub mod Fragment
pub mod Delivery
pub mod Loss
use open_ipc_mobile_gs.Prelude.{
  ℕ, zero, suc, ◌+◌, ◌*◌, ◌/◌, ◌%◌, Bool, true, false, not, ◌&&◌, ◌||◌, Option, none, some, List,
  [], ◌∷◌, ◌++◌, ltb, leb, ◌==◌, if◌then◌else◌, length, take, drop, Bytes, byte, bit_set, be16,
  add64, u16_mod,
}
use open_ipc_mobile_gs.Rtp.Header.{
  RtpHeader, parse_rtp, payload_size, payload_at, VideoCodec, unknown, h264, h265, detect_codec,
}

-- `data` and `size` together are the unit's bytes, the start code included.
pub record NalUnit : Type 0 where
  pub bytes : Bytes
  pub rtp_timestamp : ℕ
  pub marker : Bool

pub record RtpDepacketizer : Type 0 where
  pub codec : VideoCodec
  pub callback_set : Bool
  pub fragment : Bytes
  pub in_fragment : Bool
  pub expected_seq : ℕ
  pub out : Bytes
  pub packets : ℕ
  pub nals : ℕ
  pub dropped : ℕ
  pub broken_fragments : ℕ
  pub emitted : List NalUnit

abbrev pub initial : VideoCodec → Bool → RtpDepacketizer
initial codec set = record {
  codec = codec;
  callback_set = set;
  fragment = [];
  in_fragment = false;
  expected_seq = 0;
  out = [];
  packets = 0;
  nals = 0;
  dropped = 0;
  broken_fragments = 0;
  emitted = [];
}

abbrev pub start_code : Bytes
start_code = 0 ∷ 0 ∷ 0 ∷ 1 ∷ []

unfoldable pub set_codec : RtpDepacketizer → VideoCodec → RtpDepacketizer
set_codec d codec = record d { codec = codec }

unfoldable pub reset_fragment : RtpDepacketizer → RtpDepacketizer
reset_fragment d = record d { fragment = []; in_fragment = false }

-- `++dropped_; return false;`
abbrev pub drop_packet : RtpDepacketizer → RtpDepacketizer × Bool
drop_packet d = (record d { dropped = add64 d.dropped 1 }, false)

unfoldable pub emit_nal : RtpDepacketizer → Bytes → ℕ → Bool → RtpDepacketizer
emit_nal d payload timestamp marker =
    if length payload == 0 || not d.callback_set then d else record d {
      out = start_code ++ payload;
      nals = add64 d.nals 1;
      emitted =
          d.emitted
          ++ (record { bytes = start_code ++ payload; rtp_timestamp = timestamp; marker = marker }
              ∷ []);
    }

-- The loop over an aggregation packet; the list is what stands from `offset` on. Each round takes
-- two bytes or more, so the length is fuel enough.
unfoldable pub aggregate : ℕ → RtpDepacketizer → Bytes → ℕ → Bool → RtpDepacketizer × Bool
unfolding emit_nal
aggregate zero d rest timestamp marker = (d, true)
aggregate (suc n) d [] timestamp marker = (d, true)
aggregate (suc n) d (hi ∷ []) timestamp marker = (d, true)
aggregate (suc n) d (hi ∷ lo ∷ rest) timestamp marker =
    let nal_size = be16 hi lo in
    let next =
      aggregate n (emit_nal d (take nal_size rest) timestamp marker) (drop nal_size rest) timestamp
        marker in
    if nal_size == 0 || ltb (length rest) nal_size then drop_packet d else next

-- A fragmentation unit, as both codecs handle it: `header` is the NAL header rebuilt from the
-- packet, `fu_header` the byte with the start and end bits, `body` what follows it.
unfoldable pub handle_fragment :
    RtpDepacketizer → Bytes → ℕ → Bytes → ℕ → Bool → RtpDepacketizer × Bool
unfolding emit_nal reset_fragment
handle_fragment d header fu_header body timestamp marker =
    let begun = if bit_set fu_header 128 then header else d.fragment in
    let d' = record d { fragment = begun ++ body; in_fragment = true } in
    if not (bit_set fu_header 128) && not d.in_fragment
    then (record d { broken_fragments = add64 d.broken_fragments 1 }, false)
    else if bit_set fu_header 64
    then (reset_fragment (emit_nal d' (begun ++ body) timestamp marker), true)
    else (d', true)

unfoldable pub handle_h264 : RtpDepacketizer → Bytes → ℕ → Bool → RtpDepacketizer × Bool
handle_h264 d payload timestamp marker =
    let nal_type = byte payload 0 % 32 in
    let fu_header = byte payload 1 in
    if ltb (length payload) 1
    then (d, false)
    else if leb 1 nal_type && leb nal_type 23
    then (emit_nal d payload timestamp marker, true)
    else if nal_type == 24
    then aggregate (length payload) d (drop 1 payload) timestamp marker
    else if nal_type == 28
    then if ltb (length payload) 2
      then (d, false)
      else handle_fragment d ((byte payload 0 / 32 * 32 + fu_header % 32) ∷ []) fu_header
          (drop 2 payload) timestamp marker
    else drop_packet d

-- In the rebuilt header `payload[0] & 0x81` keeps the top and the bottom bit.
unfoldable pub handle_h265 : RtpDepacketizer → Bytes → ℕ → Bool → RtpDepacketizer × Bool
handle_h265 d payload timestamp marker =
    let nal_type = byte payload 0 / 2 % 64 in
    let fu_header = byte payload 2 in
    if ltb (length payload) 2
    then (d, false)
    else if leb nal_type 47
    then (emit_nal d payload timestamp marker, true)
    else if nal_type == 48
    then aggregate (length payload) d (drop 2 payload) timestamp marker
    else if nal_type == 49
    then if ltb (length payload) 3
      then (d, false)
      else handle_fragment d
          ((byte payload 0 / 128 * 128 + byte payload 0 % 2 + fu_header % 64 * 2)
            ∷ byte payload 1
            ∷ [])
          fu_header (drop 3 payload) timestamp marker
    else drop_packet d

-- A sequence gap breaks the fragment in flight; then the next number is expected.
unfoldable pub track_sequence : RtpDepacketizer → ℕ → RtpDepacketizer
unfolding reset_fragment
track_sequence d sequence =
    let broken = reset_fragment (record d { broken_fragments = add64 d.broken_fragments 1 }) in
    let d' = if d.in_fragment && not (sequence == d.expected_seq) then broken else d in
    record d' { expected_seq = (sequence + 1) % u16_mod }

-- The codec is guessed while it is unknown.
abbrev pub guess_codec : VideoCodec → Bytes → VideoCodec
guess_codec unknown packet = detect_codec packet
guess_codec h264 packet = h264
guess_codec h265 packet = h265

abbrev pub dispatch : VideoCodec → RtpDepacketizer → Bytes → ℕ → Bool → RtpDepacketizer × Bool
dispatch unknown d payload timestamp marker = drop_packet d
dispatch h264 d payload timestamp marker = handle_h264 d payload timestamp marker
dispatch h265 d payload timestamp marker = handle_h265 d payload timestamp marker

-- `Push` behind a header that parses.
unfoldable pub push_parsed : RtpDepacketizer → Bytes → RtpHeader → RtpDepacketizer × Bool
unfolding track_sequence
push_parsed d packet header =
    let payload = payload_at packet header.payload_offset in
    let codec = guess_codec d.codec packet in
    let d' = record (track_sequence d header.sequence) { codec = codec } in
    if payload_size packet header.payload_offset == 0
    then drop_packet d
    else dispatch codec d' payload header.timestamp header.marker

unfoldable pub push : RtpDepacketizer → Bytes → RtpDepacketizer × Bool
unfolding push_parsed
push d packet =
    let d' = record d { packets = add64 d.packets 1 } in
    elim (parse_rtp packet) [ none ↦ drop_packet d' | some header ↦ push_parsed d' packet header ]
