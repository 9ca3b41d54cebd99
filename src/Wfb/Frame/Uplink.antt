-- ===== src/Wfb/Frame/Uplink.antt =====
-- The frames that the uplink builds, as the receiving side's `ClassifyFrame` reads them.
use open_ipc_mobile_gs.Prelude.{
  ℕ, ◌/◌, ◌%◌, ◌≤◌, ◌<◌, ◌≡◌, refl, ◌∙◌, none, some, length, drop, ◌++◌, Bytes, arith, ◌==◌,
  if◌then◌else◌, be32, u32_mod, [], ◌∷◌,
}
use open_ipc_mobile_gs.Wfb.Frame.{
  channel_id, classify_frame, uplink_frame, ieee80211_header, has_markers, same_channel,
  channel_bytes, copy_at,
}

module _ (link_id radio_port : ℕ) (fits : link_id < 16777216) (port : radio_port < 256) where
  channel_link : channel_id link_id radio_port / 256 ≡ link_id
  unfolding channel_id
  channel_link = omega arith

  channel_port : channel_id link_id radio_port % 256 ≡ radio_port
  unfolding channel_id
  channel_port = omega arith

  channel_lt : channel_id link_id radio_port < u32_mod
  unfolding channel_id
  channel_lt = omega arith

be32-bytes :
    (c : ℕ)
    → c < u32_mod
    → be32 (c / 16777216 % 256) (c / 65536 % 256) (c / 256 % 256) (c % 256) ≡ c
be32-bytes c h = omega arith

-- The uplink's frame around any four channel bytes.
abbrev framed : ℕ → ℕ → ℕ → ℕ → Bytes → Bytes
framed a b c d bytes =
    let channel = a ∷ b ∷ c ∷ d ∷ [] in
    copy_at (copy_at ieee80211_header 12 channel) 18 channel ++ bytes

classify_frame-framed :
    (own a b c d : ℕ) (bytes : Bytes)
    → 4 ≤ length bytes
    → classify_frame own (framed a b c d bytes)
      ≡ (if be32 a b c d / 256 == own then some (be32 a b c d % 256) else none)
unfolding classify_frame has_markers same_channel copy_at
classify_frame-framed own a b c d bytes h = ground arith

-- A frame that the uplink of one link sends on a port, with four bytes of data or more: a receiver
-- of the same link takes it for that port, one of another link refuses it, and what stands behind
-- the 24-byte header is the data.
pub classify_frame-uplink_frame :
    (own link_id radio_port : ℕ) (bytes : Bytes)
    → link_id < 16777216
    → radio_port < 256
    → 4 ≤ length bytes
    → (classify_frame own (uplink_frame link_id radio_port bytes)
        ≡ (if link_id == own then some radio_port else none))
      × (drop 24 (uplink_frame link_id radio_port bytes) ≡ bytes)
unfolding uplink_frame channel_bytes copy_at
classify_frame-uplink_frame own link_id radio_port bytes fits port h =
    let c = channel_id link_id radio_port in
    (
      classify_frame-framed own (c / 16777216 % 256) (c / 65536 % 256) (c / 256 % 256) (c % 256)
            bytes h
          ∙ rw
              (
                be32-bytes c (channel_lt link_id radio_port fits port),
                channel_link link_id radio_port fits port,
                channel_port link_id radio_port fits port,
              )
              refl,
      refl,
    )
