-- ===== src/Mavlink/Framer/Tests.antt =====
-- The framer on concrete streams: the cases of core/tests/test_mavlink.cpp.
use open_ipc_mobile_gs.Prelude.{
  ◌+◌, ◌<◌, ◌≡◌, refl, List, [], ◌∷◌, arith, length, take, drop, true, replicate, add64,
}
use open_ipc_mobile_gs.Mavlink.Framer.{
  MavlinkFramer, initial, push, loop, frame_len, inspect, message_at, drop_byte, deliver,
}
use open_ipc_mobile_gs.Mavlink.Framer.Stream.{push-append, push-buffer, settle}
use open_ipc_mobile_gs.Mavlink.Framer.Frames.{
  WireFrame, v1_frame, v2_frame, Item, noise, whole, wire, message_of, IsLive, push-wire, encode,
}
use open_ipc_mobile_gs.Mavlink.Framer.Account.{Accounts, push-Accounts}

abbrev heartbeat : WireFrame
heartbeat = v1_frame 0 1 1 0 (replicate 9 0) (0 ∷ 0 ∷ [])

abbrev attitude : WireFrame
attitude = v2_frame 1 0 1 1 1 30 0 0 (replicate 28 0) (replicate 15 0)

abbrev items : List Item
items = noise 0x11 ∷ noise 0x22 ∷ whole heartbeat ∷ noise 0x33 ∷ whole attitude ∷ []

abbrev fresh : MavlinkFramer
fresh = initial true

delivered_items :
    (push fresh (wire items)).delivered ≡ message_of heartbeat ∷ message_of attitude ∷ []
unfolding push frame_len inspect message_at drop_byte deliver add64
delivered_items = refl

-- A frame split across two reads.
split_read :
    (push (push fresh (take 3 (encode heartbeat))) (drop 3 (encode heartbeat))).messages ≡ 1
unfolding push frame_len inspect message_at drop_byte deliver add64
split_read = refl

fresh-IsLive : IsLive fresh
fresh-IsLive = record { listens = refl; messages_fit = omega arith; dropped_fit = omega arith }

push-append_example :
    push (push fresh (take 20 (wire items))) (drop 20 (wire items)) ≡ push fresh (wire items)
push-append_example = push-append fresh (take 20 (wire items)) (drop 20 (wire items))

push-buffer_example :
    (push fresh (take 9 (encode heartbeat)) ≡ settle (loop 9 fresh (take 9 (encode heartbeat))))
    × (length (push fresh (take 9 (encode heartbeat))).buffer < 280)
push-buffer_example = push-buffer fresh (take 9 (encode heartbeat))

push-wire_example :
    ((push fresh (wire items)).delivered ≡ message_of heartbeat ∷ message_of attitude ∷ [])
    × ((push fresh (wire items)).messages ≡ add64 0 2)
    × ((push fresh (wire items)).dropped_bytes ≡ add64 0 3)
    × ((push fresh (wire items)).buffer ≡ [])
push-wire_example = push-wire fresh items refl (omega arith) fresh-IsLive

push-Accounts_example :
    Accounts fresh
      (0 + length (wire items))
      (push fresh (wire items), (push fresh (wire items)).buffer)
push-Accounts_example = push-Accounts fresh (wire items) fresh-IsLive
