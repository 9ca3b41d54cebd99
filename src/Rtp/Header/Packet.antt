-- ===== src/Rtp/Header/Packet.antt =====
-- RTP packets by the layout of RFC 3550, as a specification for `ParseRtp` and `PayloadSize`.
use open_ipc_mobile_gs.Prelude.{
  ℕ, suc, ◌+◌, ◌-◌, ◌*◌, ◌/◌, ◌%◌, ◌≤◌, ◌<◌, ◌≡◌, refl, sym, ap, ◌∙◌, [], ◌∷◌, ◌++◌, arith, length,
  take, drop, Bytes, byte, length-append, Option, none, some, Bool, true, if◌then◌else◌,
  take-append_length, drop-append_length, replicate, length-replicate, get_or-append_right,
}
use mathlib.Core.List.{append_assoc}
use open_ipc_mobile_gs.Rtp.Header.{
  RtpHeader, parse_rtp, payload_size, payload_at, skip_extension, padding_fits, header_at,
}

pub record Extension : Type 0 where
  pub profile_hi : ℕ
  pub profile_lo : ℕ
  pub words : ℕ
  pub content : Bytes

-- `sources` holds the contributing sources' identifiers, four bytes each; `padding` is the number
-- of zero bytes in front of the byte that counts them and itself.
pub record RtpPacket : Type 0 where
  pub marker : Bool
  pub payload_type : ℕ
  pub sequence : ℕ
  pub timestamp : ℕ
  pub ssrc : ℕ
  pub source_count : ℕ
  pub sources : Bytes
  pub extension : Option Extension
  pub payload : Bytes
  pub padding : Option ℕ

abbrev pub encode_extension : Option Extension → Bytes
encode_extension none = []
encode_extension (some e) =
    e.profile_hi ∷ e.profile_lo ∷ (e.words / 256) ∷ (e.words % 256) ∷ e.content

abbrev pub encode_padding : Option ℕ → Bytes
encode_padding none = []
encode_padding (some zeros) = replicate zeros 0 ++ (suc zeros ∷ [])

abbrev weight_if {ℓ} : {A : Type ℓ} → ℕ → Option A → ℕ
weight_if w none = 0
weight_if w (some a) = w

-- The twelve bytes that every packet has.
abbrev pub encode_fixed : RtpPacket → Bytes
encode_fixed p =
    (128 + weight_if 32 p.padding + weight_if 16 p.extension + p.source_count)
    ∷ ((if p.marker then 128 else 0) + p.payload_type)
    ∷ (p.sequence / 256)
    ∷ (p.sequence % 256)
    ∷ (p.timestamp / 16777216)
    ∷ (p.timestamp / 65536 % 256)
    ∷ (p.timestamp / 256 % 256)
    ∷ (p.timestamp % 256)
    ∷ (p.ssrc / 16777216)
    ∷ (p.ssrc / 65536 % 256)
    ∷ (p.ssrc / 256 % 256)
    ∷ (p.ssrc % 256)
    ∷ []

abbrev pub encode_packet : RtpPacket → Bytes
encode_packet p =
    encode_fixed p
    ++ (p.sources ++ (encode_extension p.extension ++ (p.payload ++ encode_padding p.padding)))

abbrev pub ExtensionFits : Option Extension → Type 0
ExtensionFits none = Unit
ExtensionFits (some e) = (e.words < 65536) × (length e.content ≡ e.words * 4)

abbrev pub PaddingFits : Option ℕ → Type 0
PaddingFits none = Unit
PaddingFits (some zeros) = suc zeros < 256

pub record IsPacket (p : RtpPacket) : Type 0 where
  pub type_fits : p.payload_type < 128
  pub sequence_fits : p.sequence < 65536
  pub timestamp_fits : p.timestamp < 4294967296
  pub count_fits : p.source_count < 16
  pub sources_fit : length p.sources ≡ p.source_count * 4
  pub extension_fits : ExtensionFits p.extension
  pub padding_fits : PaddingFits p.padding

-- The header that the receiver is to find.
abbrev pub header_of : RtpPacket → RtpHeader
header_of p = record {
  payload_type = p.payload_type;
  sequence = p.sequence;
  timestamp = p.timestamp;
  marker = p.marker;
  payload_offset = 12 + p.source_count * 4 + length (encode_extension p.extension);
}

-- What the receiver sees of the extension, given the flag and what stands in front of it.
skip-encode :
    (front rest : Bytes) (e : Option Extension)
    → ExtensionFits e
    → byte (front ++ (encode_extension e ++ rest)) 0 / 16 % 2 ≡ weight_if 1 e
    → skip_extension (front ++ (encode_extension e ++ rest)) (length front)
      ≡ some (length front + length (encode_extension e))
unfolding skip_extension
skip-encode front rest none h b = ground arith
skip-encode front rest (some e) h b =
    let at = get_or-append_right front (encode_extension (some e) ++ rest) in
    ground (
      arith,
      at 2 (length front + 2) 0 refl,
      at 3 (length front + 3) 0 refl,
      length-append front (encode_extension (some e) ++ rest),
      length-append e.content rest,
    )

encode_padding_last :
    (front payload : Bytes) (zeros : ℕ)
    → let packet = front ++ (payload ++ encode_padding (some zeros)) in
      (length packet ≡ length front + length payload + suc zeros)
      × (byte packet (length packet - 1) ≡ suc zeros)
encode_padding_last front payload zeros =
    let run = length-replicate {A = ℕ} zeros 0 in
    let size = length-append front (payload ++ encode_padding (some zeros)) in
    let size' = length-append payload (encode_padding (some zeros)) in
    let size'' = length-append (replicate zeros 0) (suc zeros ∷ []) in
    (
      omega arith,
      get_or-append_right front _ (length payload + zeros) _ 0 (omega arith)
          ∙ get_or-append_right payload _ zeros _ 0 (omega arith)
          ∙ get_or-append_right (replicate zeros 0) _ 0 _ 0 (omega arith),
    )

padding-encode :
    (front payload : Bytes) (pad : Option ℕ)
    → PaddingFits pad
    → byte (front ++ (payload ++ encode_padding pad)) 0 / 32 % 2 ≡ weight_if 1 pad
    → (padding_fits (front ++ (payload ++ encode_padding pad)) (length front) ≡ true)
      × (payload_size (front ++ (payload ++ encode_padding pad)) (length front) ≡ length payload)
unfolding padding_fits payload_size
padding-encode front payload none h b =
    ground (arith, length-append front (payload ++ []), length-append payload [])
padding-encode front payload (some zeros) h b =
    ground (arith, encode_padding_last front payload zeros)

module _ (p : RtpPacket) (v : IsPacket p) where
  first_byte :
      let b = byte (encode_packet p) 0 in
      (b / 64 % 4 ≡ 2)
      × (b % 16 ≡ p.source_count)
      × (b / 16 % 2 ≡ weight_if 1 p.extension)
      × (b / 32 % 2 ≡ weight_if 1 p.padding)
  first_byte = ground (arith, v.count_fits)

  header_at-encode : header_at (encode_packet p) (header_of p).payload_offset ≡ header_of p
  unfolding header_at
  header_at-encode = ground (arith, v.type_fits, v.sequence_fits, v.timestamp_fits)

  abbrev front : Bytes
  front = encode_fixed p ++ p.sources

  abbrev body : Bytes
  body = p.payload ++ encode_padding p.padding

  by_extension : encode_packet p ≡ front ++ (encode_extension p.extension ++ body)
  by_extension = sym (append_assoc (encode_fixed p) p.sources _)

  by_payload : encode_packet p ≡ (front ++ encode_extension p.extension) ++ body
  by_payload = by_extension ∙ sym (append_assoc front (encode_extension p.extension) body)

  length-front : length front ≡ 12 + p.source_count * 4
  length-front = omega (arith, v.sources_fit)

  length_header : length (front ++ encode_extension p.extension) ≡ (header_of p).payload_offset
  length_header = omega (arith, length-front, length-append front (encode_extension p.extension))

  skips :
      skip_extension (encode_packet p) (12 + p.source_count * 4) ≡ some (header_of p).payload_offset
  skips =
      rw (← length-front, by_extension)
        (skip-encode front body p.extension v.extension_fits first_byte.2)

  pads :
      (padding_fits (encode_packet p) (header_of p).payload_offset ≡ true)
      × (payload_size (encode_packet p) (header_of p).payload_offset ≡ length p.payload)
  pads =
      rw (← length_header, by_payload)
        (padding-encode (front ++ encode_extension p.extension) p.payload p.padding v.padding_fits
          first_byte.3)

  long : 12 + p.source_count * 4 ≤ length (encode_packet p)
  long =
      omega (arith, v.sources_fit, length-append p.sources (encode_extension p.extension ++ body))

  parse_header : parse_rtp (encode_packet p) ≡ some (header_of p)
  unfolding parse_rtp
  parse_header = ground (arith, skips, pads, long, first_byte, header_at-encode)

  read_payload : payload_at (encode_packet p) (header_of p).payload_offset ≡ p.payload
  read_payload =
      let at = (header_of p).payload_offset in
      let n = length p.payload in
      ap (λ (k : ℕ). take k (drop at (encode_packet p))) pads.1
      ∙ ap (λ (b : Bytes). take n (drop at b)) by_payload
      ∙ ap (λ (k : ℕ). take n (drop k ((front ++ encode_extension p.extension) ++ body)))
          (sym length_header)
      ∙ ap (take n) (drop-append_length (front ++ encode_extension p.extension) body)
      ∙ take-append_length p.payload (encode_padding p.padding)

  -- A packet built by the layout, with any sources, extension and padding, parses to the header
  -- that it was built from, and the payload found is the one put in, without the padding.
  pub parse_rtp-encode :
      (parse_rtp (encode_packet p) ≡ some (header_of p))
      × (payload_at (encode_packet p) (header_of p).payload_offset ≡ p.payload)
      × (payload_size (encode_packet p) (header_of p).payload_offset ≡ length p.payload)
  parse_rtp-encode = (parse_header, read_payload, pads.1)
