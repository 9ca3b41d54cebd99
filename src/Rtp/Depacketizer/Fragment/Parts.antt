-- ===== src/Rtp/Depacketizer/Fragment/Parts.antt =====
-- One fragment: FU-A of H.264 and FU of H.265, and what `HandleFragment` of
-- core/src/rtp/depacketizer.cpp, the part that the two codecs share, does with it.
use open_ipc_mobile_gs.Prelude.{
  ℕ, ◌+◌, ◌*◌, ◌/◌, ◌%◌, ◌<◌, ◌≡◌, ◌≢◌, sym, ap, ◌∙◌, List, [], ◌∷◌, ◌++◌, arith, Bytes, Bool, true,
  false, add64, if◌then◌else◌, bit_set,
}
use open_ipc_mobile_gs.Rtp.Header.{VideoCodec, unknown, h264, h265}
use open_ipc_mobile_gs.Rtp.Header.Packet.{RtpPacket, IsPacket, encode_packet}
use open_ipc_mobile_gs.Rtp.Depacketizer.{
  RtpDepacketizer, push, emit_nal, handle_h264, handle_h265, handle_fragment, dispatch,
  reset_fragment,
}
use open_ipc_mobile_gs.Rtp.Depacketizer.Delivery.{push-encode, received}

-- How a codec sends a fragment of a NAL unit with the given header: the bytes in front of the FU
-- header, and the type that the FU header carries.
pub data Fragments : VideoCodec → Bytes → Bytes → ℕ → Type 0 where
  fu_a :
      {header indicator type : ℕ}
      → header < 256
      → indicator ≡ header / 32 * 32 + 28
      → type ≡ header % 32
      → Fragments h264 (header ∷ []) (indicator ∷ []) type
  fu :
      {first second indicator type : ℕ}
      → first < 256
      → indicator ≡ first / 128 * 128 + 98 + first % 2
      → type ≡ first / 2 % 64
      → Fragments h265 (first ∷ second ∷ []) (indicator ∷ second ∷ []) type

abbrev pub fu_header : Bool → Bool → ℕ → ℕ
fu_header start end type = (if start then 128 else 0) + (if end then 64 else 0) + type

dispatch-Fragments :
    {c : VideoCodec} {nal front : Bytes} {type : ℕ} (d : RtpDepacketizer) (start end : Bool)
    (chunk : Bytes) (t : ℕ) (m : Bool)
    → Fragments c nal front type
    → dispatch c d (front ++ (fu_header start end type ∷ chunk)) t m
      ≡ handle_fragment d nal (fu_header start end type) chunk t m
unfolding handle_h264 handle_h265
dispatch-Fragments d start end chunk t m (fu_a {header} {indicator} {type} h i k) =
    let rebuilt : indicator / 32 * 32 + fu_header start end type % 32 ≡ header = ground arith in
    let kind : indicator % 32 ≡ 28 = omega arith in rw (← rebuilt) (ground arith)
dispatch-Fragments d start end chunk t m (fu {first} {second} {indicator} {type} h i k) =
    let rebuilt : indicator / 128 * 128 + indicator % 2 + fu_header start end type % 64 * 2
        ≡ first =
      ground arith in
    let kind : indicator / 2 % 64 ≡ 49 = omega arith in rw (← rebuilt) (ground arith)

pub start_bit : (end : Bool) (type : ℕ) → type < 64 → bit_set (fu_header true end type) 128 ≡ true
start_bit end type h = ground arith

pub continue_bit :
    (end : Bool) (type : ℕ) → type < 64 → bit_set (fu_header false end type) 128 ≡ false
continue_bit end type h = ground arith

pub end_bit :
    (start end : Bool) (type : ℕ) → type < 64 → bit_set (fu_header start end type) 64 ≡ end
end_bit start end type h = ground arith

-- The four ways through `handle_fragment`.
module _ (d : RtpDepacketizer) (nal : Bytes) (fu : ℕ) (chunk : Bytes) (t : ℕ) (m : Bool) where
  pub begin_unit :
      bit_set fu 128 ≡ true
      → bit_set fu 64 ≡ false
      → handle_fragment d nal fu chunk t m
        ≡ (record d { fragment = nal ++ chunk; in_fragment = true }, true)
  unfolding handle_fragment
  begin_unit s e = ground arith

  pub extend_unit :
      bit_set fu 128 ≡ false
      → bit_set fu 64 ≡ false
      → d.in_fragment ≡ true
      → handle_fragment d nal fu chunk t m
        ≡ (record d { fragment = d.fragment ++ chunk; in_fragment = true }, true)
  unfolding handle_fragment
  extend_unit s e o = ground arith

  pub finish_unit :
      bit_set fu 128 ≡ false
      → bit_set fu 64 ≡ true
      → d.in_fragment ≡ true
      → handle_fragment d nal fu chunk t m ≡ (
        reset_fragment (
            emit_nal
              (record d { fragment = d.fragment ++ chunk; in_fragment = true })
              (d.fragment ++ chunk)
              t
              m),
        true,
      )
  unfolding handle_fragment
  finish_unit s e o = ground arith

  pub orphan_unit :
      bit_set fu 128 ≡ false
      → d.in_fragment ≡ false
      → handle_fragment d nal fu chunk t m
        ≡ (record d { broken_fragments = add64 d.broken_fragments 1 }, false)
  unfolding handle_fragment
  orphan_unit s o = ground arith

pub type_fits :
    {c : VideoCodec} {nal front : Bytes} {type : ℕ} → Fragments c nal front type → type < 64
type_fits (fu_a h i k) = omega arith
type_fits (fu h i k) = omega arith

known : {c : VideoCodec} {nal front : Bytes} {type : ℕ} → Fragments c nal front type → c ≢ unknown
known (fu_a h i k) e = cc
known (fu h i k) e = cc

front_ne_nil :
    {c : VideoCodec} {nal front : Bytes} {type : ℕ} (rest : Bytes)
    → Fragments c nal front type
    → front ++ rest ≢ []
front_ne_nil rest (fu_a h i k) e = cc
front_ne_nil rest (fu h i k) e = cc

pub nal_ne_nil :
    {c : VideoCodec} {nal front : Bytes} {type : ℕ} (rest : Bytes)
    → Fragments c nal front type
    → nal ++ rest ≢ []
nal_ne_nil rest (fu_a h i k) e = cc
nal_ne_nil rest (fu h i k) e = cc

-- The packet of one fragment: as the template, with its own sequence number and payload.
abbrev pub fragment_packet : RtpPacket → Bytes → ℕ → ℕ → Bool → Bool → Bytes → RtpPacket
fragment_packet p front type sequence start end chunk = record p {
  sequence = sequence;
  payload = front ++ (fu_header start end type ∷ chunk);
}

pub fragment_packet-IsPacket :
    (p : RtpPacket) (front : Bytes) (type sequence : ℕ) (start end : Bool) (chunk : Bytes)
    → IsPacket p
    → sequence < 65536
    → IsPacket (fragment_packet p front type sequence start end chunk)
fragment_packet-IsPacket p front type sequence start end chunk v h = record {
  type_fits = v.type_fits;
  sequence_fits = h;
  timestamp_fits = v.timestamp_fits;
  count_fits = v.count_fits;
  sources_fit = v.sources_fit;
  extension_fits = v.extension_fits;
  padding_fits = v.padding_fits;
}

-- Successive calls of `Push`.
abbrev pub push_all : RtpDepacketizer → List RtpPacket → RtpDepacketizer
push_all d [] = d
push_all d (p ∷ ps) = push_all (push d (encode_packet p)).0 ps

module _ (p : RtpPacket) (v : IsPacket p) {c : VideoCodec} {nal front : Bytes} {type : ℕ}
    (f : Fragments c nal front type) where
  pub push-fragment :
      (d : RtpDepacketizer) (sequence : ℕ) (start end : Bool) (chunk : Bytes)
      → d.codec ≡ c
      → sequence < 65536
      → push d (encode_packet (fragment_packet p front type sequence start end chunk))
        ≡ handle_fragment
            (received d sequence)
            nal
            (fu_header start end type)
            chunk
            p.timestamp
            p.marker
  push-fragment d sequence start end chunk e h =
      push-encode d (fragment_packet p front type sequence start end chunk)
        (fragment_packet-IsPacket p front type sequence start end chunk v h)
        (λ k. known f (sym e ∙ k)) (front_ne_nil (fu_header start end type ∷ chunk) f)
      ∙ ap
          (λ (k : VideoCodec).
            dispatch k (received d sequence) (front ++ (fu_header start end type ∷ chunk))
              p.timestamp p.marker)
          e
      ∙ dispatch-Fragments (received d sequence) start end chunk p.timestamp p.marker f
