-- ===== src/Mavlink/Framer/Account.antt =====
-- Where the framer's bytes go: into messages, into the count of dropped bytes, or into the buffer.
use open_ipc_mobile_gs.Prelude.{
  ℕ, zero, suc, ◌+◌, ◌≤◌, ◌≡◌, sym, ap, ◌∙◌, List, [], ◌∷◌, ◌++◌, arith, length, drop, Bytes,
  length-append, add64, inl, inr, add64-add64, length-drop, add64-zero, length-take,
}
use mathlib.Core.List.{append_assoc, append-nil}
use open_ipc_mobile_gs.Mavlink.Framer.{
  MavlinkFramer, MavlinkMessage, inspect, message_at, loop, drop_byte, deliver, push,
}
use open_ipc_mobile_gs.Mavlink.Framer.Window.{Round-cases, inspect-frame}
use open_ipc_mobile_gs.Mavlink.Framer.Frames.{IsLive, drop_byte-IsLive, deliver-IsLive}
use open_ipc_mobile_gs.Mavlink.Framer.Stream.{loop_skip, loop_wait, loop_frame, push_lem}

-- The bytes of the messages, and their sizes.
abbrev pub total_size : List MavlinkMessage → ℕ
total_size [] = 0
total_size (m ∷ ms) = length m.bytes + total_size ms

-- A run that delivers `news`, drops `lost` bytes and leaves `r.1`, of `size` bytes in all.
pub record Accounts (f : MavlinkFramer) (size : ℕ) (r : MavlinkFramer × Bytes) : Type 0 where
  pub news : List MavlinkMessage
  pub lost : ℕ
  pub delivered : r.0.delivered ≡ f.delivered ++ news
  pub messages : r.0.messages ≡ add64 f.messages (length news)
  pub dropped : r.0.dropped_bytes ≡ add64 f.dropped_bytes lost
  pub adds_up : total_size news + lost + length r.1 ≡ size

Accounts-still : (f : MavlinkFramer) (xs : Bytes) → IsLive f → Accounts f (length xs) (f, xs)
Accounts-still f xs v = record {
  news = [];
  lost = 0;
  delivered = sym (append-nil f.delivered);
  messages = sym (add64-zero _ v.messages_fit);
  dropped = sym (add64-zero _ v.dropped_fit);
  adds_up = omega arith;
}

Accounts-drop :
    (f : MavlinkFramer) (size : ℕ) (r : MavlinkFramer × Bytes)
    → Accounts (drop_byte f) size r
    → Accounts f (suc size) r
unfolding drop_byte
Accounts-drop f size r a = record {
  news = a.news;
  lost = suc a.lost;
  delivered = a.delivered;
  messages = a.messages;
  dropped = a.dropped ∙ add64-add64 _ _ _ ∙ ap (add64 f.dropped_bytes) (omega arith);
  adds_up = omega (arith, a.adds_up);
}

Accounts-deliver :
    (f : MavlinkFramer) (m : MavlinkMessage) (size : ℕ) (r : MavlinkFramer × Bytes)
    → IsLive f
    → Accounts (deliver f m) size r
    → Accounts f (length m.bytes + size) r
unfolding deliver
Accounts-deliver f m size r v a = record {
  news = m ∷ a.news;
  lost = a.lost;
  delivered = a.delivered ∙ rw v.listens (append_assoc f.delivered (m ∷ []) a.news);
  messages = a.messages ∙ add64-add64 _ _ _ ∙ ap (add64 f.messages) (omega arith);
  dropped = a.dropped;
  adds_up = omega (arith, a.adds_up);
}

length-message_at :
    (xs : Bytes) (len : ℕ) → len ≤ length xs → length (message_at xs len).bytes ≡ len
unfolding message_at
length-message_at xs len h = omega (arith, length-take len xs)

loop-Accounts :
    (n : ℕ) (f : MavlinkFramer) (xs : Bytes)
    → length xs ≤ n
    → IsLive f
    → Accounts f (length xs) (loop n f xs)
unfolding loop
loop-Accounts zero f xs h v = Accounts-still f xs v
loop-Accounts (suc n) f [] h v = Accounts-still f [] v
loop-Accounts (suc n) f (b ∷ xs) h v = elim (Round-cases (inspect (b ∷ xs))) [
  | inl e ↦
      rw (loop_skip n f b xs e) (
        Accounts-drop f _ _ (loop-Accounts n (drop_byte f) xs (omega arith) (drop_byte-IsLive f v)))
  | inr (inl e) ↦ rw (loop_wait n f b xs e) (Accounts-still f (b ∷ xs) v)
  | inr (inr (len, e)) ↦
      let size = inspect-frame (b ∷ xs) len e in
      let shorter = length-drop len (b ∷ xs) in
      let m = message_at (b ∷ xs) len in
      let read = length-message_at (b ∷ xs) len (omega arith) in
      let whole : length m.bytes + length (drop len (b ∷ xs)) ≡ length (b ∷ xs) = omega arith in
      rw (loop_frame n f b xs len e, ← whole)
        (Accounts-deliver f m _ _ v
          (loop-Accounts n (deliver f m) (drop len (b ∷ xs)) (omega arith) (deliver-IsLive f m v)))
]

-- No byte is lost or made up: with a callback set, what `push` is given and what it kept before is
-- the bytes of the messages that it delivers, the bytes that it counts as dropped, and what it
-- keeps. The counters grow by those numbers, modulo 2^64.
pub push-Accounts :
    (f : MavlinkFramer) (xs : Bytes)
    → IsLive f
    → Accounts f (length f.buffer + length xs) (push f xs, (push f xs).buffer)
push-Accounts f xs v =
    let n = length (f.buffer ++ xs) in
    let a = loop-Accounts n f (f.buffer ++ xs) (omega arith) v in
    rw (push_lem f xs n (omega arith)) (record {
      news = a.news;
      lost = a.lost;
      delivered = a.delivered;
      messages = a.messages;
      dropped = a.dropped;
      adds_up = omega (arith, a.adds_up, length-append f.buffer xs);
    })
