-- ===== src/Rtp/Depacketizer/Delivery.antt =====
-- `Push` on packets built by the RTP layout: what reaches the codec's handler, and what one call of
-- `EmitNal` adds.
use open_ipc_mobile_gs.Prelude.{
  ℕ, ◌+◌, ◌%◌, ◌≡◌, ◌≢◌, refl, ap, ◌∙◌, [], ◌∷◌, ◌++◌, arith, length, Bytes, Bool, true, false,
  add64, u16_mod, ◌==◌,
}
use open_ipc_mobile_gs.Rtp.Header.{VideoCodec, unknown, h264, h265}
use open_ipc_mobile_gs.Rtp.Header.Packet.{RtpPacket, IsPacket, encode_packet, parse_rtp-encode}
use open_ipc_mobile_gs.Rtp.Depacketizer.{
  RtpDepacketizer, NalUnit, start_code, push, push_parsed, dispatch, guess_codec, track_sequence,
  emit_nal, reset_fragment,
}

-- The state in which the handler is called.
abbrev pub received : RtpDepacketizer → ℕ → RtpDepacketizer
received d sequence = track_sequence (record d { packets = add64 d.packets 1 }) sequence

guess_known : (c : VideoCodec) (packet : Bytes) → c ≢ unknown → guess_codec c packet ≡ c
guess_known unknown packet k = absurd (k refl)
guess_known h264 packet k = refl
guess_known h265 packet k = refl

length_pos : (xs : Bytes) → xs ≢ [] → (length xs == 0) ≡ false
length_pos [] ne = absurd (ne refl)
length_pos (x ∷ xs) ne = ground arith

with_own_codec :
    (d : RtpDepacketizer) (sequence : ℕ) (c : VideoCodec)
    → c ≡ d.codec
    → record (track_sequence d sequence) { codec = c } ≡ track_sequence d sequence
unfolding track_sequence reset_fragment
with_own_codec d sequence c e = ground arith

pub push-encode :
    (d : RtpDepacketizer) (p : RtpPacket)
    → IsPacket p
    → d.codec ≢ unknown
    → p.payload ≢ []
    → push d (encode_packet p)
      ≡ dispatch d.codec (received d p.sequence) p.payload p.timestamp p.marker
unfolding push push_parsed
push-encode d p v k ne =
    let r = parse_rtp-encode p v in
    let d' = record d { packets = add64 d.packets 1 } in
    let known = guess_known d.codec (encode_packet p) k in
    let state = received d p.sequence in
    let filled = ap (λ (n : ℕ). n == 0) r.2 ∙ length_pos p.payload ne in
    rw (r.0, push)
      (rw filled (
        (λ i. dispatch (known i) (record state { codec = known i }) (r.1 i) p.timestamp p.marker)
        ∙ ap (λ (s : RtpDepacketizer). dispatch d.codec s p.payload p.timestamp p.marker)
            (with_own_codec d' p.sequence d.codec refl)))

-- The unit that `EmitNal` hands to the callback.
abbrev pub nal_unit : ℕ → Bool → Bytes → NalUnit
nal_unit timestamp marker nal = record {
  bytes = start_code ++ nal;
  rtp_timestamp = timestamp;
  marker = marker;
}

pub emit_nal_lem :
    (d : RtpDepacketizer) (nal : Bytes) (timestamp : ℕ) (marker : Bool)
    → d.callback_set ≡ true
    → nal ≢ []
    → emit_nal d nal timestamp marker ≡ record d {
      out = start_code ++ nal;
      nals = add64 d.nals 1;
      emitted = d.emitted ++ (nal_unit timestamp marker nal ∷ []);
    }
unfolding emit_nal
emit_nal_lem d [] timestamp marker c ne = absurd (ne refl)
emit_nal_lem d (x ∷ nal) timestamp marker c ne = ground arith

pub received_keeps :
    (d : RtpDepacketizer) (sequence : ℕ)
    → ((received d sequence).codec ≡ d.codec)
      × ((received d sequence).callback_set ≡ d.callback_set)
      × ((received d sequence).emitted ≡ d.emitted)
      × ((received d sequence).nals ≡ d.nals)
      × ((received d sequence).dropped ≡ d.dropped)
      × ((received d sequence).expected_seq ≡ (sequence + 1) % u16_mod)
unfolding track_sequence reset_fragment
received_keeps d sequence = ground arith

-- In sequence, the fragment in flight is kept.
pub received_next :
    (d : RtpDepacketizer) (sequence : ℕ)
    → d.expected_seq ≡ sequence
    → ((received d sequence).in_fragment ≡ d.in_fragment)
      × ((received d sequence).fragment ≡ d.fragment)
      × ((received d sequence).broken_fragments ≡ d.broken_fragments)
unfolding track_sequence reset_fragment
received_next d sequence e = ground arith

-- Out of sequence, it is given up.
pub received_gap :
    (d : RtpDepacketizer) (sequence : ℕ)
    → d.in_fragment ≡ true
    → d.expected_seq ≢ sequence
    → ((received d sequence).in_fragment ≡ false)
      × ((received d sequence).broken_fragments ≡ add64 d.broken_fragments 1)
unfolding track_sequence reset_fragment
received_gap d sequence h e = ground arith

pub received_idle :
    (d : RtpDepacketizer) (sequence : ℕ)
    → d.in_fragment ≡ false
    → ((received d sequence).in_fragment ≡ false)
      × ((received d sequence).broken_fragments ≡ d.broken_fragments)
unfolding track_sequence reset_fragment
received_idle d sequence h = ground arith
