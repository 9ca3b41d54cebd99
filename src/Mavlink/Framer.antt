-- ===== src/Mavlink/Framer.antt =====
-- `MavlinkFramer` (core/src/mavlink/router.cpp): splits a byte stream into MAVLink messages.
-- The loop's `offset` is modelled by the suffix of `buffer_` that begins there, so `buffer_[offset
-- + i]` is `byte rest i` and `buffer_.size() - offset` is `length rest`.
pub mod Window
pub mod Stream
pub mod Frames
pub mod Account
mod Tests
use open_ipc_mobile_gs.Prelude.{
  ℕ, zero, suc, ◌+◌, ◌*◌, Bool, true, false, not, ◌&&◌, List, [], ◌∷◌, ◌++◌, ltb, ◌==◌,
  if◌then◌else◌, length, take, drop, Bytes, byte, bit_set, add64,
}

abbrev pub mavlink_v1_magic : ℕ
mavlink_v1_magic = 0xfe

abbrev pub mavlink_v2_magic : ℕ
mavlink_v2_magic = 0xfd

abbrev pub max_frame_size : ℕ
max_frame_size = 280

-- `data` and `size` together are the message's bytes.
pub record MavlinkMessage : Type 0 where
  pub bytes : Bytes
  pub size : ℕ
  pub msgid : ℕ
  pub system_id : ℕ
  pub component_id : ℕ
  pub v2 : Bool

-- `delivered` logs the calls of `callback_`, oldest first.
pub record MavlinkFramer : Type 0 where
  pub buffer : Bytes
  pub callback_set : Bool
  pub messages : ℕ
  pub dropped_bytes : ℕ
  pub delivered : List MavlinkMessage

abbrev pub initial : Bool → MavlinkFramer
initial set = record {
  buffer = [];
  callback_set = set;
  messages = 0;
  dropped_bytes = 0;
  delivered = [];
}

-- `Reset`
unfoldable pub reset : MavlinkFramer → MavlinkFramer
reset f = record f { buffer = [] }

abbrev pub is_v2 : Bytes → Bool
is_v2 rest = byte rest 0 == mavlink_v2_magic

abbrev pub header_size : Bool → ℕ
header_size v2 = if v2 then 10 else 6

-- Header, payload, checksum and, on a signed v2 frame, the signature.
unfoldable pub frame_len : Bytes → ℕ
frame_len rest =
    let len = header_size (is_v2 rest) + byte rest 1 + 2 in
    if is_v2 rest && bit_set (byte rest 2) 1 then len + 13 else len

-- What one round of the loop does: drop a byte, break, or deliver a frame of that length.
pub data Round : Type 0 where
  skip wait : Round
  frame : ℕ → Round

-- The tests of one round, in the order of the loop's body.
unfoldable pub inspect : Bytes → Round
inspect rest =
    if not (byte rest 0 == mavlink_v1_magic) && not (is_v2 rest)
    then skip
    else if ltb (length rest) (header_size (is_v2 rest))
    then wait
    else if ltb max_frame_size (frame_len rest)
    then skip
    else if ltb (length rest) (frame_len rest)
    then wait
    else frame (frame_len rest)

unfoldable pub message_at : Bytes → ℕ → MavlinkMessage
message_at rest len = record {
  bytes = take len rest;
  size = len;
  msgid = if is_v2 rest then byte rest 7 + byte rest 8 * 256 + byte rest 9 * 65536 else byte rest 5;
  system_id = if is_v2 rest then byte rest 5 else byte rest 3;
  component_id = if is_v2 rest then byte rest 6 else byte rest 4;
  v2 = is_v2 rest;
}

unfoldable pub drop_byte : MavlinkFramer → MavlinkFramer
drop_byte f = record f { dropped_bytes = add64 f.dropped_bytes 1 }

unfoldable pub deliver : MavlinkFramer → MavlinkMessage → MavlinkFramer
deliver f m = record f {
  messages = add64 f.messages 1;
  delivered = if f.callback_set then f.delivered ++ (m ∷ []) else f.delivered;
}

-- The `while` loop, with the suffix that it leaves. Each round consumes a byte or more, so the
-- length of the buffer is fuel enough.
unfoldable pub loop : ℕ → MavlinkFramer → Bytes → MavlinkFramer × Bytes
loop zero f rest = (f, rest)
loop (suc n) f [] = (f, [])
loop (suc n) f (b ∷ rest) = elim (inspect (b ∷ rest)) [
  | skip ↦ loop n (drop_byte f) rest
  | wait ↦ (f, b ∷ rest)
  | frame len ↦ loop n (deliver f (message_at (b ∷ rest) len)) (drop len (b ∷ rest))
]

-- The guard behind the loop.
unfoldable pub guard_size : MavlinkFramer → MavlinkFramer
unfolding reset
guard_size f =
    if ltb (4 * max_frame_size) (length f.buffer)
    then reset (record f { dropped_bytes = add64 f.dropped_bytes (length f.buffer) })
    else f

unfoldable pub push : MavlinkFramer → Bytes → MavlinkFramer
unfolding loop guard_size
push f bytes =
    let whole = f.buffer ++ bytes in
    let (g, rest) = loop (length whole) f whole in guard_size (record g { buffer = rest })
