-- ===== src/Wfb/Frame.antt =====
-- `ChannelId` (core/include/openipc/config.h), `WfbReceiver::ClassifyFrame`
-- (core/src/wfb/wfb_receiver.cpp) and the frame that `GroundStation::SendUplink` builds
-- (gslib/src/main/cpp/ground_station.cpp).
pub mod Uplink
use open_ipc_mobile_gs.Prelude.{
  ℕ, ◌+◌, ◌*◌, ◌/◌, ◌%◌, Bool, not, ◌&&◌, ◌||◌, Option, none, some, [], ◌∷◌, ◌++◌, ltb, ◌==◌,
  if◌then◌else◌, length, take, drop, Bytes, byte, be32, u32_mod,
}

-- A `uint32_t` shift: the top byte of the link's number is lost. The port is a byte.
unfoldable pub channel_id : ℕ → ℕ → ℕ
channel_id link_id radio_port = link_id * 256 % u32_mod + radio_port

-- Both addresses begin with the marker of wfb-ng.
unfoldable pub has_markers : Bytes → Bool
has_markers frame =
    byte frame 10 == 0x57 && byte frame 11 == 0x42 && byte frame 16 == 0x57 && byte frame 17 == 0x42

-- The `memcmp` of the two addresses behind the markers.
unfoldable pub same_channel : Bytes → Bool
same_channel frame =
    byte frame 12 == byte frame 18
    && byte frame 13 == byte frame 19
    && byte frame 14 == byte frame 20
    && byte frame 15 == byte frame 21

-- The radio port, or none where the code returns -1.
unfoldable pub classify_frame : ℕ → Bytes → Option ℕ
unfolding has_markers same_channel
classify_frame link_id frame =
    let channel = be32 (byte frame 12) (byte frame 13) (byte frame 14) (byte frame 15) in
    if ltb (length frame) (24 + 4)
    then none
    else if not (byte frame 0 == 0x08) || not (byte frame 1 == 0x01)
    then none
    else if not (has_markers frame)
    then none
    else if not (same_channel frame)
    then none
    else if not (channel / 256 == link_id)
    then none
    else some (channel % 256)

-- `kIeee80211Header`
abbrev pub ieee80211_header : Bytes
ieee80211_header =
    0x08 ∷ 0x01 ∷ 0x00 ∷ 0x00 ∷ 0xff ∷ 0xff ∷ 0xff ∷ 0xff ∷ 0xff ∷ 0xff ∷ 0x57 ∷ 0x42 ∷ 0xaa ∷ 0xbb
    ∷ 0xcc ∷ 0xdd ∷ 0x57 ∷ 0x42 ∷ 0xaa ∷ 0xbb ∷ 0xcc ∷ 0xdd ∷ 0x00 ∷ 0x00 ∷ []

-- The big-endian bytes of a 32-bit number.
unfoldable pub channel_bytes : ℕ → Bytes
channel_bytes channel =
    channel / 16777216 % 256 ∷ channel / 65536 % 256 ∷ channel / 256 % 256 ∷ channel % 256 ∷ []

-- `memcpy` over a part of a buffer that is long enough.
unfoldable pub copy_at : Bytes → ℕ → Bytes → Bytes
copy_at buffer offset bytes = take offset buffer ++ bytes ++ drop (offset + length bytes) buffer

-- The frame of `SendUplink`: the channel stands in both addresses.
unfoldable pub uplink_frame : ℕ → ℕ → Bytes → Bytes
unfolding channel_bytes copy_at
uplink_frame link_id radio_port bytes =
    let channel = channel_bytes (channel_id link_id radio_port) in
    copy_at (copy_at ieee80211_header 12 channel) 18 channel ++ bytes
