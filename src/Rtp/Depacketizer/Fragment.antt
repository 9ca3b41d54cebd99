-- ===== src/Rtp/Depacketizer/Fragment.antt =====
-- Fragmentation units: FU-A of H.264 and FU of H.265. A NAL unit cut into fragments, sent in
-- packets with consecutive sequence numbers, comes out whole.
pub mod Parts
use open_ipc_mobile_gs.Prelude.{
  ℕ, ◌+◌, ◌*◌, ◌/◌, ◌%◌, ◌<◌, ◌≡◌, ◌≢◌, refl, sym, ap, ◌∙◌, List, [], ◌∷◌, ◌++◌, arith, Bytes, Bool,
  true, false, add64, if◌then◌else◌, bit_set, u16_mod,
}
use mathlib.Core.List.{append_assoc}
use open_ipc_mobile_gs.Rtp.Header.{VideoCodec, unknown, h264, h265}
use open_ipc_mobile_gs.Rtp.Header.Packet.{RtpPacket, IsPacket, encode_packet}
use open_ipc_mobile_gs.Rtp.Depacketizer.{
  RtpDepacketizer, NalUnit, push, emit_nal, handle_h264, handle_h265, handle_fragment, dispatch,
  reset_fragment,
}
use open_ipc_mobile_gs.Rtp.Depacketizer.Delivery.{
  push-encode, received, received_keeps, received_next, nal_unit, emit_nal_lem,
}
use open_ipc_mobile_gs.Rtp.Depacketizer.Fragment.Parts.{
  Fragments, fu_a, fu, fu_header, begin_unit, extend_unit, finish_unit, orphan_unit, start_bit,
  continue_bit, end_bit, type_fits, nal_ne_nil, fragment_packet, fragment_packet-IsPacket,
  push-fragment, push_all,
}

-- One unit has come out, and the depacketiser is idle again.
pub record Delivered (d : RtpDepacketizer) (unit : NalUnit) (r : RtpDepacketizer) : Type 0 where
  pub emitted : r.emitted ≡ d.emitted ++ (unit ∷ [])
  pub nals : r.nals ≡ add64 d.nals 1
  pub dropped : r.dropped ≡ d.dropped
  pub idle : r.in_fragment ≡ false
  pub cleared : r.fragment ≡ []

reset-emit :
    (d : RtpDepacketizer) (nal : Bytes) (t : ℕ) (m : Bool)
    → d.callback_set ≡ true
    → nal ≢ []
    → Delivered d (nal_unit t m nal) (reset_fragment (emit_nal d nal t m))
unfolding reset_fragment
reset-emit d nal t m c h =
    rw (emit_nal_lem d nal t m c h)
      (record { emitted = refl; nals = refl; dropped = refl; idle = refl; cleared = refl })

-- A depacketiser that has taken the fragments `acc` of the unit and emitted nothing since `d`.
record InFlight (c : VideoCodec) (nal : Bytes) (d : RtpDepacketizer) (acc : Bytes) (next : ℕ)
    (s : RtpDepacketizer) : Type 0 where
  codec_is : s.codec ≡ c
  listens : s.callback_set ≡ true
  open_unit : s.in_fragment ≡ true
  held : s.fragment ≡ nal ++ acc
  expects : s.expected_seq ≡ next
  emitted_same : s.emitted ≡ d.emitted
  nals_same : s.nals ≡ d.nals
  dropped_same : s.dropped ≡ d.dropped

-- A fragment: its bytes, and the packet whose other header fields it is sent with.
pub record Piece : Type 0 where
  pub packet : RtpPacket
  pub chunk : Bytes

abbrev pub ArePieces : List Piece → Type 0
ArePieces [] = Unit
ArePieces (k ∷ ks) = IsPacket k.packet × ArePieces ks

abbrev pub join : List Piece → Piece → Bytes
join [] last = last.chunk
join (k ∷ ks) last = k.chunk ++ join ks last

module _ (p : RtpPacket) (v : IsPacket p) {c : VideoCodec} {nal front : Bytes} {type : ℕ}
    (f : Fragments c nal front type) where
  start_fragment :
      (d : RtpDepacketizer) (sequence : ℕ) (chunk : Bytes)
      → d.codec ≡ c
      → d.callback_set ≡ true
      → sequence < 65536
      → InFlight c nal d chunk
          ((sequence + 1) % u16_mod)
          (push d (encode_packet (fragment_packet p front type sequence true false chunk))).0
  start_fragment d sequence chunk e l h =
      let kept = received_keeps d sequence in
      rw (push-fragment p v f d sequence true false chunk e h) (
        rw
          (begin_unit (received d sequence) nal (fu_header true false type) chunk p.timestamp
            p.marker (start_bit false type (type_fits f)) (end_bit true false type (type_fits f)))
          (record {
            codec_is = kept.0 ∙ e;
            listens = kept.1 ∙ l;
            open_unit = refl;
            held = refl;
            expects = kept.5;
            emitted_same = kept.2;
            nals_same = kept.3;
            dropped_same = kept.4;
          }))

  middle_fragment :
      (d s : RtpDepacketizer) (acc : Bytes) (sequence : ℕ) (chunk : Bytes)
      → InFlight c nal d acc sequence s
      → sequence < 65536
      → InFlight c nal d
          (acc ++ chunk)
          ((sequence + 1) % u16_mod)
          (push s (encode_packet (fragment_packet p front type sequence false false chunk))).0
  middle_fragment d s acc sequence chunk i h =
      let kept = received_keeps s sequence in
      let next = received_next s sequence i.expects in
      rw (push-fragment p v f s sequence false false chunk i.codec_is h) (
        rw
          (extend_unit (received s sequence) nal (fu_header false false type) chunk p.timestamp
            p.marker (continue_bit false type (type_fits f))
            (end_bit false false type (type_fits f)) (next.0 ∙ i.open_unit))
          (record {
            codec_is = kept.0 ∙ i.codec_is;
            listens = kept.1 ∙ i.listens;
            open_unit = refl;
            held = rw (next.1, i.held) (append_assoc nal acc chunk);
            expects = kept.5;
            emitted_same = kept.2 ∙ i.emitted_same;
            nals_same = kept.3 ∙ i.nals_same;
            dropped_same = kept.4 ∙ i.dropped_same;
          }))

  last_fragment :
      (d s : RtpDepacketizer) (acc : Bytes) (sequence : ℕ) (chunk : Bytes)
      → InFlight c nal d acc sequence s
      → sequence < 65536
      → Delivered d
          (nal_unit p.timestamp p.marker (nal ++ (acc ++ chunk)))
          (push s (encode_packet (fragment_packet p front type sequence false true chunk))).0
  last_fragment d s acc sequence chunk i h =
      let kept = received_keeps s sequence in
      let next = received_next s sequence i.expects in
      let r = received s sequence in
      let whole : r.fragment ++ chunk ≡ nal ++ (acc ++ chunk) =
        rw (next.1, i.held) (append_assoc nal acc chunk) in
      let unit = record r { fragment = r.fragment ++ chunk; in_fragment = true } in
      let e =
        reset-emit unit (r.fragment ++ chunk) p.timestamp p.marker (kept.1 ∙ i.listens)
          (λ n. nal_ne_nil (acc ++ chunk) f (sym whole ∙ n)) in
      rw (push-fragment p v f s sequence false true chunk i.codec_is h) (
        rw
          (finish_unit r nal (fu_header false true type) chunk p.timestamp p.marker
            (continue_bit true type (type_fits f)) (end_bit false true type (type_fits f))
            (next.0 ∙ i.open_unit))
          (record {
            emitted = e.emitted ∙ λ j.
                (kept.2 ∙ i.emitted_same) j ++ (nal_unit p.timestamp p.marker (whole j) ∷ []);
            nals = e.nals ∙ ap (λ (n : ℕ). add64 n 1) (kept.3 ∙ i.nals_same);
            dropped = e.dropped ∙ kept.4 ∙ i.dropped_same;
            idle = e.idle;
            cleared = e.cleared;
          }))

-- Middle fragments and the last one, from a given sequence number on.
abbrev pub rest_packets : Bytes → ℕ → ℕ → List Piece → Piece → List RtpPacket
rest_packets front type sequence [] last =
    fragment_packet last.packet front type sequence false true last.chunk ∷ []
rest_packets front type sequence (k ∷ ks) last =
    fragment_packet k.packet front type sequence false false k.chunk
    ∷ rest_packets front type ((sequence + 1) % u16_mod) ks last

-- All packets of a unit.
abbrev pub unit_packets : Bytes → ℕ → ℕ → Piece → List Piece → Piece → List RtpPacket
unit_packets front type sequence first ks last =
    fragment_packet first.packet front type sequence true false first.chunk
    ∷ rest_packets front type ((sequence + 1) % u16_mod) ks last

module _ {c : VideoCodec} {nal front : Bytes} {type : ℕ} (f : Fragments c nal front type) where
  rest_lem :
      (d s : RtpDepacketizer) (acc : Bytes) (sequence : ℕ) (ks : List Piece) (last : Piece)
      → ArePieces ks
      → IsPacket last.packet
      → InFlight c nal d acc sequence s
      → sequence < 65536
      → Delivered d
          (nal_unit last.packet.timestamp last.packet.marker (nal ++ (acc ++ join ks last)))
          (push_all s (rest_packets front type sequence ks last))
  rest_lem d s acc sequence [] last v w i h =
      last_fragment last.packet w f d s acc sequence last.chunk i h
  rest_lem d s acc sequence (k ∷ ks) last v w i h =
      let p = fragment_packet k.packet front type sequence false false k.chunk in
      rw (← append_assoc acc k.chunk (join ks last)) (
        rest_lem d (push s (encode_packet p)).0 (acc ++ k.chunk) ((sequence + 1) % u16_mod) ks last
          v.1 w (middle_fragment k.packet v.0 f d s acc sequence k.chunk i h) (omega arith))

  -- A NAL unit that is sent as a first fragment, any number of middle ones and a last one, in
  -- packets with consecutive sequence numbers modulo 2^16 and otherwise each with a header, sources,
  -- extension and padding of its own, is emitted once, whole and behind a start code, with the
  -- timestamp and marker of the last packet; nothing else is emitted or dropped, and no fragment is
  -- left in flight. The depacketiser has the unit's codec and a callback, and may have been anywhere
  -- in another unit, expecting any sequence number.
  pub push_fragments :
      (d : RtpDepacketizer) (sequence : ℕ) (first : Piece) (ks : List Piece) (last : Piece)
      → d.codec ≡ c
      → d.callback_set ≡ true
      → sequence < 65536
      → ArePieces (first ∷ ks)
      → IsPacket last.packet
      → Delivered d
          (nal_unit last.packet.timestamp last.packet.marker (nal ++ (first.chunk ++ join ks last)))
          (push_all d (unit_packets front type sequence first ks last))
  push_fragments d sequence first ks last e l h v w =
      rest_lem d _ first.chunk ((sequence + 1) % u16_mod) ks last v.1 w
        (start_fragment first.packet v.0 f d sequence first.chunk e l h) (omega arith)
