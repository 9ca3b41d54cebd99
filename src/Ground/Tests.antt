-- ===== src/Ground/Tests.antt =====
-- A station with concrete parts.
use mathlib.Core.Option as Option
use open_ipc_mobile_gs.Rtp.Depacketizer as Rtp
use open_ipc_mobile_gs.Prelude.{
  ℕ, ◌+◌, ◌≡◌, refl, true, false, none, some, List, [], ◌∷◌, Bytes, arith, drop,
}
use open_ipc_mobile_gs.Prelude.Int.{ℤ, pos}
use open_ipc_mobile_gs.Wfb.Frame.{classify_frame}
use open_ipc_mobile_gs.Wfb.Receiver.{find_sink, add_stream}
use open_ipc_mobile_gs.Wfb.Receiver.Samples.{passing, idle_sink, two_streams, arrival_on}
use open_ipc_mobile_gs.Wfb.Receiver.Streams.{Arrival, alone_payloads, packets_on}
use open_ipc_mobile_gs.Rtp.Header.{h264}
use open_ipc_mobile_gs.Mavlink.Router.Traffic.{feed_downlink}
use open_ipc_mobile_gs.Alink.Controller.{new_controller}
use open_ipc_mobile_gs.Alink.Framing.{frame_message, read_all}
use open_ipc_mobile_gs.Alink.Controller.Samples.{whole_numbers, two_requests}
use open_ipc_mobile_gs.Ground.{new_station, port_video, port_mavlink_rx, port_tunnel_tx}
use open_ipc_mobile_gs.Ground.Samples.{numbered, mirrored_config, Station}
use open_ipc_mobile_gs.Ground.Payloads.{on_frames}
use open_ipc_mobile_gs.Ground.Payloads.Dispatch.{each, on_frames-parts}
use open_ipc_mobile_gs.Ground.Stats.{Tick, stats_round}
use open_ipc_mobile_gs.Ground.Stats.Uplink.{message_due, stats_round-classify_frame}
use open_ipc_mobile_gs.Ground.Lifecycle.{StartCalls, start_station, stop_station}
use open_ipc_mobile_gs.Ground.Lifecycle.Mirror.{MirrorServes, start_station-stop_station}
use open_ipc_mobile_gs.Ground.Lifecycle.Usage.{
  Call, frame_call, stats_call, datagram_call, apply_calls, start_station-settled,
}

abbrev idle_station : Station
idle_station = new_station mirrored_config h264

abbrev good_calls : StartCalls
good_calls = record {
  pipe_ends = some (3, 4);
  mirror_socket = some 7;
  inet_pton = λ host. some 2130706433;
  connect_ok = true;
  key_error = [];
}

abbrev running_station : Station
running_station = record idle_station {
  source = some 5;
  receiver = some two_streams;
  alink = some (new_controller two_requests);
  running = true;
}

abbrev arrivals : List Arrival
arrivals = arrival_on 0 (1 ∷ 2 ∷ []) ∷ arrival_on 0x10 (3 ∷ []) ∷ arrival_on 0 (5 ∷ []) ∷ []

video_found : find_sink port_video two_streams.sinks ≡ some idle_sink
unfolding find_sink
video_found = refl

telemetry_found : find_sink port_mavlink_rx two_streams.sinks ≡ some idle_sink
unfolding find_sink
telemetry_found = refl

on_frames-parts_example :
    ((on_frames passing running_station arrivals).depacketizer
      ≡ each
          (λ d b. (Rtp.push d b).0)
          running_station.depacketizer
          (alone_payloads passing idle_sink (packets_on passing 7669206 port_video arrivals)))
    × ((on_frames passing running_station arrivals).mavlink
        ≡ each feed_downlink running_station.mavlink (
            alone_payloads passing idle_sink (packets_on passing 7669206 port_mavlink_rx arrivals)))
on_frames-parts_example =
    on_frames-parts passing running_station two_streams idle_sink idle_sink arrivals refl
      video_found telemetry_found

abbrev now_tick : Tick
now_tick = record { stamp = 1700000000000; now = 1700000000005; draws = 0 ∷ 1 ∷ 2 ∷ 3 ∷ [] }

stats_round-classify_frame_example :
    (frame : Bytes) × ((stats_round whole_numbers passing numbered
        (running_station, 0)
        now_tick).0.transmitted
      ≡ frame ∷ [])
    × (classify_frame 7669206 frame ≡ some port_tunnel_tx)
    × (drop 24 frame
        ≡ frame_message
            (message_due whole_numbers passing (new_controller two_requests) two_streams now_tick))
    × ((n : ℕ)
        → read_all (n + 1) (drop 24 frame)
          ≡ message_due whole_numbers passing (new_controller two_requests) two_streams now_tick
            ∷ [])
stats_round-classify_frame_example =
    stats_round-classify_frame whole_numbers passing numbered running_station
      (new_controller two_requests) two_streams 5 0 now_tick refl refl refl refl (omega arith)
      (omega arith) refl (omega arith)

mirror_serves : MirrorServes passing numbered good_calls (pos 0) mirrored_config 7
mirror_serves = (refl, refl, refl, refl, refl)

refused_start :
    (start_station passing numbered good_calls mirrored_config (pos 0) idle_station).1 ≡ false
unfolding start_station Option.bind add_stream
refused_start = refl

start_station-stop_station_example :
    let failed =
      (start_station passing numbered good_calls mirrored_config (pos 0) idle_station).0 in
    (failed.running ≡ false)
    × ((stop_station passing numbered failed).mirror_fd ≡ some 7)
    × ((stop_station passing numbered failed).opened ≡ 7 ∷ [])
    × ((stop_station passing numbered failed).closed ≡ [])
start_station-stop_station_example =
    start_station-stop_station passing numbered good_calls (pos 0) mirrored_config 7 idle_station
      refl mirror_serves refused_start

good_start :
    (start_station passing numbered good_calls mirrored_config (pos 5) idle_station).1 ≡ true
unfolding start_station Option.bind add_stream
good_start = refl

abbrev some_calls : List (Call ℤ)
some_calls =
    frame_call (arrival_on 0 (1 ∷ [])) ∷ stats_call 0 now_tick ∷ datagram_call (1 ∷ []) ∷ []

start_station-settled_example :
    let h = stop_station passing numbered (
      apply_calls numbered whole_numbers passing
        (start_station passing numbered good_calls mirrored_config (pos 5) idle_station).0
        some_calls) in
    (h.running ≡ false) × (h.mirror_fd ≡ none) × (h.opened ≡ h.closed)
start_station-settled_example =
    start_station-settled passing numbered good_calls (pos 5) whole_numbers mirrored_config
      idle_station some_calls refl refl refl good_start
