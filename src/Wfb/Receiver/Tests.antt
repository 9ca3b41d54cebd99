-- ===== src/Wfb/Receiver/Tests.antt =====
-- A receiver with two streams.
use open_ipc_mobile_gs.Prelude.{◌≡◌, ◌≢◌, refl, sym, ◌∙◌, true, some, List, [], ◌∷◌, Bytes, arith}
use open_ipc_mobile_gs.Prelude.Int.{pos, negsuc, ◌-ℤ◌}
use open_ipc_mobile_gs.Wfb.Frame.{
  channel_id, channel_bytes, copy_at, has_markers, same_channel, classify_frame, uplink_frame,
}
use open_ipc_mobile_gs.Wfb.Receiver.{
  find_sink, set_sink, noise_of, packet_of, sink_packet, sink_payloads, process_at, process_frame,
  session_established, after_snapshot,
}
use open_ipc_mobile_gs.Wfb.Receiver.Streams.{
  Arrival, payloads_of, packets_on, process_all, Received, process_all-Received,
}
use open_ipc_mobile_gs.Wfb.Receiver.Samples.{passing, idle_sink, two_streams, arrival_on}
use open_ipc_mobile_gs.Wfb.Receiver.Session.{
  Event, frame_came, snapshot_taken, run, run-session_established,
}

abbrev mixed : List Arrival
mixed =
    arrival_on 0 (1 ∷ 2 ∷ [])
    ∷ arrival_on 0x10 (3 ∷ [])
    ∷ arrival_on 0x20 (4 ∷ [])
    ∷ arrival_on 0 (5 ∷ [])
    ∷ []

-- The noise floor that is handed on wraps around for a weak and clean signal: -80 - 60 becomes 116.
wrapped_noise : noise_of (negsuc 79) (pos 60) ≡ pos 116
unfolding noise_of ◌-ℤ◌
wrapped_noise = refl

video_of_mixed :
    payloads_of 0 (process_all passing two_streams mixed).delivered ≡ (1 ∷ 2 ∷ []) ∷ (5 ∷ []) ∷ []
unfolding process_frame process_at find_sink set_sink packet_of sink_packet sink_payloads
    classify_frame uplink_frame channel_id channel_bytes copy_at has_markers same_channel
video_of_mixed = refl

telemetry_sink : find_sink 0x10 two_streams.sinks ≡ some idle_sink
unfolding find_sink
telemetry_sink = refl

process_all-Received_example :
    Received passing 0x10 idle_sink two_streams
      (packets_on passing 7669206 0x10 mixed)
      (process_all passing two_streams mixed)
process_all-Received_example =
    process_all-Received passing two_streams 0x10 idle_sink mixed telemetry_sink

abbrev events : List Event
events =
    frame_came (arrival_on 0 (1 ∷ [])) ∷ snapshot_taken ∷ frame_came (arrival_on 0x10 (2 ∷ [])) ∷ []

video_sink : find_sink two_streams.primary_port two_streams.sinks ≡ some idle_sink
unfolding find_sink
video_sink = refl

some_video : payloads_of 0 (run passing two_streams events).delivered ≡ (1 ∷ []) ∷ []
unfolding process_frame process_at find_sink set_sink packet_of sink_packet sink_payloads
    classify_frame uplink_frame channel_id channel_bytes copy_at has_markers same_channel
    after_snapshot
some_video = refl

one_or_none : {x : Bytes} → (x ∷ []) ≢ []
one_or_none e = ground arith

run-session_established_example :
    session_established passing (run passing two_streams events) ≡ true
run-session_established_example =
    run-session_established passing two_streams idle_sink events video_sink refl
      (λ e. one_or_none (sym some_video ∙ e))
