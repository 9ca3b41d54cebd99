-- ===== src/Rtp/Tests.antt =====
-- The RTP path on concrete packets: the cases of core/tests/test_rtp.cpp, and the theorems applied.
use open_ipc_mobile_gs.Prelude.{
  ℕ, ◌+◌, ◌≤◌, ◌≡◌, refl, List, [], ◌∷◌, ◌++◌, arith, length, Bytes, true, false, map, some, inl,
  inr, add64, replicate,
}
use open_ipc_mobile_gs.Rtp.Header.{
  h264, h265, parse_rtp, payload_size, payload_at, detect_codec, skip_extension, padding_fits,
  header_at,
}
use open_ipc_mobile_gs.Rtp.Header.Packet.{
  RtpPacket, IsPacket, encode_packet, header_of, parse_rtp-encode,
}
use open_ipc_mobile_gs.Rtp.Header.Layout.{parse_rtp_bounds, padding}
use open_ipc_mobile_gs.Rtp.Header.Codec.{detect_codec_slice, detect_codec_key_frame}
use open_ipc_mobile_gs.Rtp.Depacketizer.{RtpDepacketizer, push, initial, handle_h264, emit_nal}
use open_ipc_mobile_gs.Rtp.Depacketizer.Delivery.{nal_unit}
use open_ipc_mobile_gs.Rtp.Depacketizer.Aggregate.{
  encode_units, IsUnits, stap_a, push-encode_units, push_truncated,
}
use open_ipc_mobile_gs.Rtp.Depacketizer.Fragment.Parts.{Fragments, fu_a, push_all}
use open_ipc_mobile_gs.Rtp.Depacketizer.Fragment.{Piece, unit_packets, push_fragments, Delivered}
use open_ipc_mobile_gs.Rtp.Depacketizer.Loss.{Continuation}

-- With two contributing sources, an extension of one word and three bytes of padding.
abbrev template : RtpPacket
template = record {
  marker = true;
  payload_type = 96;
  sequence = 65535;
  timestamp = 90000;
  ssrc = 7;
  source_count = 2;
  sources = replicate 8 1;
  extension =
      some (record { profile_hi = 190; profile_lo = 222; words = 1; content = replicate 4 9 });
  payload = 0x65 ∷ 0x88 ∷ 0x84 ∷ [];
  padding = some 2;
}

abbrev slice : RtpPacket
slice = record template { payload = 0x41 ∷ 0x9a ∷ 0x02 ∷ [] }

template-IsPacket : IsPacket template
template-IsPacket = omega arith

slice-IsPacket : IsPacket slice
slice-IsPacket = omega arith

runs :
    (push (initial h264 true) (encode_packet template)).0.emitted
    ≡ nal_unit 90000 true (0x65 ∷ 0x88 ∷ 0x84 ∷ []) ∷ []
unfolding push parse_rtp payload_size skip_extension padding_fits header_at add64 handle_h264
    emit_nal
runs = refl

parse_rtp-encode_example :
    (parse_rtp (encode_packet template) ≡ some (header_of template))
    × (payload_at (encode_packet template) 28 ≡ 0x65 ∷ 0x88 ∷ 0x84 ∷ [])
    × (payload_size (encode_packet template) 28 ≡ 3)
parse_rtp-encode_example = parse_rtp-encode template template-IsPacket

parse_rtp_bounds_example :
    (12 ≤ 28)
    × (28 ≤ length (encode_packet template))
    × (28 + payload_size (encode_packet template) 28 + padding (encode_packet template)
        ≡ length (encode_packet template))
parse_rtp_bounds_example =
    parse_rtp_bounds (encode_packet template) (parse_rtp-encode template template-IsPacket).0

detect_codec_slice_example : detect_codec (encode_packet slice) ≡ h265
detect_codec_slice_example =
    detect_codec_slice slice 0x41 0x9a (0x02 ∷ []) slice-IsPacket refl (omega arith) (omega arith)
      (omega arith)

detect_codec_key_frame_example : detect_codec (encode_packet template) ≡ h264
detect_codec_key_frame_example =
    detect_codec_key_frame template 0x65 0x88 (0x84 ∷ []) template-IsPacket refl (omega arith)
      (inl (omega arith))

abbrev units : List Bytes
units = (0x67 ∷ 1 ∷ 2 ∷ []) ∷ (0x68 ∷ 3 ∷ []) ∷ []

abbrev stap : RtpPacket
stap = record template { payload = 0x78 ∷ encode_units units }

abbrev cut_stap : RtpPacket
cut_stap = record template { payload = 0x78 ∷ (encode_units units ++ (0 ∷ 9 ∷ 1 ∷ [])) }

units-IsUnits : IsUnits units
units-IsUnits = ((λ e. cc), omega arith, ((λ e. cc), omega arith, tt))

push-encode_units_example :
    let r = push (initial h264 true) (encode_packet stap) in
    (r.1 ≡ true)
    × (r.0.emitted ≡ map (nal_unit 90000 true) units)
    × (r.0.nals ≡ add64 0 2)
    × (r.0.dropped ≡ 0)
push-encode_units_example =
    push-encode_units (initial h264 true) stap (0x78 ∷ []) units (omega arith) refl
      (stap_a (omega arith)) units-IsUnits refl (omega arith)

push_truncated_example :
    let r = push (initial h264 true) (encode_packet cut_stap) in
    (r.1 ≡ false) × (r.0.emitted ≡ map (nal_unit 90000 true) units) × (r.0.dropped ≡ add64 0 1)
push_truncated_example =
    push_truncated (initial h264 true) cut_stap (0x78 ∷ []) units 0 9 (1 ∷ []) (omega arith) refl
      (stap_a (omega arith)) units-IsUnits (inr (omega arith)) refl (omega arith)

-- An IDR slice of H.264 in three fragments, over the wrap of the sequence number.
abbrev fu : Fragments h264 (0x65 ∷ []) (0x7c ∷ []) 5
fu = fu_a (omega arith) (omega arith) (omega arith)

-- As a sender sets the marker: on the last packet only.
abbrev unmarked : RtpPacket
unmarked = record template { marker = false; source_count = 0; sources = [] }

unmarked-IsPacket : IsPacket unmarked
unmarked-IsPacket = omega arith

abbrev piece : RtpPacket → ℕ → Piece
piece p byte = record { packet = p; chunk = byte ∷ [] }

push_fragments_example :
    Delivered (initial h264 true) (nal_unit 90000 true (0x65 ∷ 1 ∷ 2 ∷ 3 ∷ [])) (
      push_all (initial h264 true) (
        unit_packets
          (0x7c ∷ [])
          5
          65535
          (piece unmarked 1)
          (piece unmarked 2 ∷ [])
          (piece template 3)))
push_fragments_example =
    push_fragments fu (initial h264 true) 65535 (piece unmarked 1) (piece unmarked 2 ∷ [])
      (piece template 3) refl refl (omega arith) (unmarked-IsPacket, (unmarked-IsPacket, tt))
      template-IsPacket

abbrev in_flight : RtpDepacketizer
in_flight = record (initial h264 true) {
  in_fragment = true;
  fragment = 0x65 ∷ 1 ∷ [];
  expected_seq = 9;
}

abbrev late : Continuation
late = record { sequence = 10; end = false; chunk = 3 ∷ [] }
