-- ===== src/Mavlink/Telemetry/Truncation.antt =====
-- MAVLink v2 cuts the zeros off the end of a payload. What `TelemetryDecoder::Consume`
-- (core/src/mavlink/router.cpp) makes of a VFR_HUD whose last field, the throttle, is cut off so.
use open_ipc_mobile_gs.Prelude.{
  ℕ, ◌+◌, ◌<◌, ◌≡◌, refl, sym, ap, ◌∙◌, ◌⊎◌, true, false, ◌∷◌, ◌++◌, arith, length, drop, leb, ◌==◌,
  if◌then◌else◌, Bytes, length-append, drop-append_length,
}
use open_ipc_mobile_gs.Prelude.Signed.{le16}
use open_ipc_mobile_gs.Mavlink.Framer.{MavlinkMessage}
use open_ipc_mobile_gs.Mavlink.Telemetry.{
  Float, TelemetryState, vfr_hud, decode, consume, consume_payload, kind_of,
}
use open_ipc_mobile_gs.Mavlink.Telemetry.Reports.{bytes16, bytes32}

-- The payload without the two bytes of the throttle.
abbrev pub cut_hud : (air ground alt climb heading : ℕ) → Bytes
cut_hud a g al c h = bytes32 a ++ (bytes32 g ++ (bytes32 al ++ (bytes32 c ++ bytes16 h)))

le_false : (m n : ℕ) → n < m → leb m n ≡ false
le_false m n h = ground arith

module _ {F : Type 0} (float : Float F) where
  throttle :
      (s : TelemetryState F) (a g al c h k0 k1 : ℕ) (signature : Bytes)
      → (decode float vfr_hud s (cut_hud a g al c h ++ (k0 ∷ k1 ∷ signature))).throttle_pct
        ≡ le16 k0 k1
  unfolding decode
  throttle s a g al c h k0 k1 signature = refl

  -- Of a v2 VFR_HUD whose throttle is cut off, the decoder leaves the throttle as it was if the
  -- message is not signed. If it is signed, the signature passes for payload: the two bytes of the
  -- checksum are taken for the throttle.
  pub consume-cut_hud :
      (now : ℕ) (s : TelemetryState F) (m : MavlinkMessage) (header : Bytes) (a g al c h k0 k1 : ℕ)
      (signature : Bytes)
      → m.msgid ≡ 74
      → m.v2 ≡ true
      → m.bytes ≡ header ++ (cut_hud a g al c h ++ (k0 ∷ k1 ∷ signature))
      → m.size ≡ length m.bytes
      → length header ≡ 10
      → (length signature ≡ 0) ⊎ (length signature ≡ 13)
      → (consume float now s m).throttle_pct
        ≡ (if length signature == 0 then s.throttle_pct else le16 k0 k1)
  unfolding consume consume_payload kind_of
  consume-cut_hud now s m header a g al c h k0 k1 signature id v2 bytes size head signed =
      let tail : Bytes = k0 ∷ k1 ∷ signature in
      let total : m.size ≡ 30 + length signature =
        omega (arith, size, ap length bytes, length-append header (cut_hud a g al c h ++ tail)) in
      let rest : drop 10 m.bytes ≡ cut_hud a g al c h ++ tail =
        (λ i. drop (sym head i) (bytes i))
        ∙ drop-append_length header (cut_hud a g al c h ++ tail) in
      rw (id, v2, rest)
        (ground (
          arith,
          total,
          throttle (record s { valid = true; last_update_ms = now }) a g al c h k0 k1 signature,
        ))
