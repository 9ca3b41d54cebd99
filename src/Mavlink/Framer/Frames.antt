-- ===== src/Mavlink/Framer/Frames.antt =====
-- MAVLink frames as the protocol lays them out, as a specification for the framer: what it
-- delivers of a stream of frames with noise between them.
use open_ipc_mobile_gs.Prelude.{
  ℕ, zero, suc, ◌+◌, ◌*◌, ◌≤◌, ◌<◌, ◌≡◌, ◌≢◌, refl, sym, ap, ◌∙◌, List, [], ◌∷◌, ◌++◌, arith,
  length, Bytes, length-append, true, false, add64, if◌then◌else◌, bit_set, take_all,
  drop-append_length, add64-add64, add64-zero, add64-lt, u64_mod,
}
use mathlib.Core.List.{append_assoc, append-nil}
use open_ipc_mobile_gs.Mavlink.Framer.{
  MavlinkFramer, MavlinkMessage, skip, frame, inspect, frame_len, message_at, loop, drop_byte,
  deliver, push,
}
use open_ipc_mobile_gs.Mavlink.Framer.Window.{inspect-append, message_at-append}
use open_ipc_mobile_gs.Mavlink.Framer.Stream.{loop_skip, loop_frame, push_lem}

-- The fields of a frame in wire order. `tail` is the checksum and, if bit 0 of `incompat` is set,
-- the signature; neither is read by the framer.
pub data WireFrame : Type 0 where
  v1_frame : (sequence system component msgid : ℕ) (payload tail : Bytes) → WireFrame
  v2_frame :
      (incompat compat sequence system component id0 id1 id2 : ℕ) (payload tail : Bytes) → WireFrame

abbrev pub encode : WireFrame → Bytes
encode (v1_frame s sys cid id payload tail) =
    0xfe ∷ length payload ∷ s ∷ sys ∷ cid ∷ id ∷ (payload ++ tail)
encode (v2_frame inc cmp s sys cid id0 id1 id2 payload tail) =
    0xfd ∷ length payload ∷ inc ∷ cmp ∷ s ∷ sys ∷ cid ∷ id0 ∷ id1 ∷ id2 ∷ (payload ++ tail)

-- The payload's length fits its byte, and the tail has the length that the flags call for.
abbrev pub IsWire : WireFrame → Type 0
IsWire (v1_frame s sys cid id payload tail) = (length payload < 256) × (length tail ≡ 2)
IsWire (v2_frame inc cmp s sys cid id0 id1 id2 payload tail) =
    (length payload < 256) × (length tail ≡ (if bit_set inc 1 then 15 else 2))

-- The message that the receiver is to be given.
abbrev pub message_of : WireFrame → MavlinkMessage
message_of (v1_frame s sys cid id payload tail) = record {
  bytes = encode (v1_frame s sys cid id payload tail);
  size = length (encode (v1_frame s sys cid id payload tail));
  msgid = id;
  system_id = sys;
  component_id = cid;
  v2 = false;
}
message_of (v2_frame inc cmp s sys cid id0 id1 id2 payload tail) = record {
  bytes = encode (v2_frame inc cmp s sys cid id0 id1 id2 payload tail);
  size = length (encode (v2_frame inc cmp s sys cid id0 id1 id2 payload tail));
  msgid = id0 + id1 * 256 + id2 * 65536;
  system_id = sys;
  component_id = cid;
  v2 = true;
}

inspect-encode : (w : WireFrame) → IsWire w → inspect (encode w) ≡ frame (length (encode w))
unfolding inspect frame_len
inspect-encode (v1_frame s sys cid id payload tail) h = ground (arith, length-append payload tail)
inspect-encode (v2_frame inc cmp s sys cid id0 id1 id2 payload tail) h =
    ground (arith, length-append payload tail)

message_at-encode : (w : WireFrame) → message_at (encode w) (length (encode w)) ≡ message_of w
unfolding message_at
message_at-encode (v1_frame s sys cid id payload tail) = rw take_all
message_at-encode (v2_frame inc cmp s sys cid id0 id1 id2 payload tail) = rw take_all

-- A stream: frames, and bytes between them that are no magic number.
pub data Item : Type 0 where
  noise : ℕ → Item
  whole : WireFrame → Item

abbrev pub IsItem : Item → Type 0
IsItem (noise b) = (b ≢ 0xfe) × (b ≢ 0xfd)
IsItem (whole w) = IsWire w

abbrev pub IsStream : List Item → Type 0
IsStream [] = Unit
IsStream (i ∷ is) = IsItem i × IsStream is

abbrev pub wire : List Item → Bytes
wire [] = []
wire (noise b ∷ is) = b ∷ wire is
wire (whole w ∷ is) = encode w ++ wire is

abbrev pub messages_of : List Item → List MavlinkMessage
messages_of [] = []
messages_of (noise b ∷ is) = messages_of is
messages_of (whole w ∷ is) = message_of w ∷ messages_of is

abbrev pub noise_count : List Item → ℕ
noise_count [] = 0
noise_count (noise b ∷ is) = suc (noise_count is)
noise_count (whole w ∷ is) = noise_count is

inspect_noise : (b : ℕ) (xs : Bytes) → b ≢ 0xfe → b ≢ 0xfd → inspect (b ∷ xs) ≡ skip
unfolding inspect
inspect_noise b xs h k = ground arith

loop-encode_at :
    (n : ℕ) (f : MavlinkFramer) (w : WireFrame) (ys : Bytes) (b : ℕ) (xs : Bytes)
    → encode w ≡ b ∷ xs
    → IsWire w
    → loop (suc n) f (encode w ++ ys) ≡ loop n (deliver f (message_of w)) ys
loop-encode_at n f w ys b xs e h =
    let len = length (b ∷ xs) in
    let seen : inspect (b ∷ xs) ≡ frame len = rw e at (inspect-encode w h) in
    let read : message_at (b ∷ xs) len ≡ message_of w = rw e at (message_at-encode w) in
    let more = inspect-append (b ∷ xs) ys (omega arith) (λ w. cc) ∙ seen in
    let message = message_at-append (b ∷ xs) ys len seen ∙ read in
    let left = drop-append_length (b ∷ xs) ys in
    rw e (loop_frame n f b (xs ++ ys) len more ∙ λ i. loop n (deliver f (message i)) (left i))

-- One frame at the front of the buffer takes one round.
loop-encode :
    (n : ℕ) (f : MavlinkFramer) (w : WireFrame) (ys : Bytes)
    → IsWire w
    → loop (suc n) f (encode w ++ ys) ≡ loop n (deliver f (message_of w)) ys
loop-encode n f (v1_frame s sys cid id payload tail) ys h =
    loop-encode_at n f (v1_frame s sys cid id payload tail) ys 0xfe _ refl h
loop-encode n f (v2_frame inc cmp s sys cid id0 id1 id2 payload tail) ys h =
    loop-encode_at n f (v2_frame inc cmp s sys cid id0 id1 id2 payload tail) ys 0xfd _ refl h

-- What `push` makes of the stream, by its four fields.
record Reads (f : MavlinkFramer) (is : List Item) (r : MavlinkFramer × Bytes) : Type 0 where
  pub messages : r.0.messages ≡ add64 f.messages (length (messages_of is))
  pub dropped : r.0.dropped_bytes ≡ add64 f.dropped_bytes (noise_count is)
  pub delivered : r.0.delivered ≡ f.delivered ++ messages_of is
  pub rest : r.1 ≡ []

Reads-noise :
    (f : MavlinkFramer) (b : ℕ) (is : List Item) (r : MavlinkFramer × Bytes)
    → Reads (drop_byte f) is r
    → Reads f (noise b ∷ is) r
unfolding drop_byte
Reads-noise f b is r v = record {
  messages = v.messages;
  dropped = v.dropped ∙ add64-add64 _ _ _ ∙ ap (add64 f.dropped_bytes) (omega arith);
  delivered = v.delivered;
  rest = v.rest;
}

Reads-whole :
    (f : MavlinkFramer) (w : WireFrame) (is : List Item) (r : MavlinkFramer × Bytes)
    → f.callback_set ≡ true
    → Reads (deliver f (message_of w)) is r
    → Reads f (whole w ∷ is) r
unfolding deliver
Reads-whole f w is r c v = record {
  messages = v.messages ∙ add64-add64 _ _ _ ∙ ap (add64 f.messages) (omega arith);
  dropped = v.dropped;
  delivered = v.delivered ∙ rw c (append_assoc f.delivered (message_of w ∷ []) (messages_of is));
  rest = v.rest;
}

loop_nil : (n : ℕ) (f : MavlinkFramer) → loop n f [] ≡ (f, [])
unfolding loop
loop_nil zero f = refl
loop_nil (suc n) f = refl

-- A callback is set, and the counters are `uint64_t` values.
pub record IsLive (f : MavlinkFramer) : Type 0 where
  pub listens : f.callback_set ≡ true
  pub messages_fit : f.messages < u64_mod
  pub dropped_fit : f.dropped_bytes < u64_mod

pub drop_byte-IsLive : (f : MavlinkFramer) → IsLive f → IsLive (drop_byte f)
unfolding drop_byte
drop_byte-IsLive f v = record {
  listens = v.listens;
  messages_fit = v.messages_fit;
  dropped_fit = add64-lt f.dropped_bytes 1;
}

pub deliver-IsLive : (f : MavlinkFramer) (m : MavlinkMessage) → IsLive f → IsLive (deliver f m)
unfolding deliver
deliver-IsLive f m v = record {
  listens = v.listens;
  messages_fit = add64-lt f.messages 1;
  dropped_fit = v.dropped_fit;
}

encode_pos : (w : WireFrame) → 0 < length (encode w)
encode_pos (v1_frame s sys cid id payload tail) = omega arith
encode_pos (v2_frame inc cmp s sys cid id0 id1 id2 payload tail) = omega arith

loop-wire :
    (n : ℕ) (f : MavlinkFramer) (is : List Item)
    → length (wire is) ≤ n
    → IsStream is
    → IsLive f
    → Reads f is (loop n f (wire is))
loop-wire n f [] h s v = rw (loop_nil n f) (record {
  messages = sym (add64-zero _ v.messages_fit);
  dropped = sym (add64-zero _ v.dropped_fit);
  delivered = sym (append-nil f.delivered);
  rest = refl;
})
loop-wire zero f (noise b ∷ is) h s v = elim h [ ]
loop-wire (suc n) f (noise b ∷ is) h s v =
    rw (loop_skip n f b (wire is) (inspect_noise b (wire is) s.0.0 s.0.1))
      (Reads-noise f b is _ (loop-wire n (drop_byte f) is (omega arith) s.1 (drop_byte-IsLive f v)))
loop-wire zero f (whole w ∷ is) h s v =
    absurd (omega (arith, encode_pos w, length-append (encode w) (wire is)))
loop-wire (suc n) f (whole w ∷ is) h s v =
    let shorter = length-append (encode w) (wire is) in
    rw (loop-encode n f w (wire is) s.0) (
      Reads-whole f w is _ v.listens (
        loop-wire n (deliver f (message_of w)) is (omega (arith, encode_pos w)) s.1
          (deliver-IsLive f (message_of w) v)))

-- From an empty buffer and with a callback set, a stream of well-formed frames, with bytes between
-- them that are neither 0xfe nor 0xfd, is delivered frame by frame, in order, with the fields that
-- each frame carries; both counters, which fit 64 bits, grow by what they count modulo 2^64, and
-- nothing is left in the buffer.
pub push-wire :
    (f : MavlinkFramer) (is : List Item)
    → f.buffer ≡ []
    → IsStream is
    → IsLive f
    → ((push f (wire is)).delivered ≡ f.delivered ++ messages_of is)
      × ((push f (wire is)).messages ≡ add64 f.messages (length (messages_of is)))
      × ((push f (wire is)).dropped_bytes ≡ add64 f.dropped_bytes (noise_count is))
      × ((push f (wire is)).buffer ≡ [])
push-wire f is e s v =
    let n = length (wire is) in
    let r = loop-wire n f is (omega arith) s v in
    let fits : length (f.buffer ++ wire is) ≤ n = rw e (omega arith) in
    rw (push_lem f (wire is) n fits) (simp e (r.delivered, r.messages, r.dropped, r.rest))
