-- ===== src/Mavlink/Router/Tests.antt =====
-- The router on concrete runs.
use open_ipc_mobile_gs.Prelude.{
  ℕ, ◌+◌, ◌≡◌, refl, List, [], ◌∷◌, ◌++◌, arith, true, false, Bool, Option, some, none, replicate,
  take, drop, Bytes, ◌==◌, add64,
}
use open_ipc_mobile_gs.Prelude.Int.{pos}
use open_ipc_mobile_gs.Mavlink.Framer.{inspect, frame_len, message_at, drop_byte, deliver}
use open_ipc_mobile_gs.Mavlink.Framer as Framer
use open_ipc_mobile_gs.Mavlink.Framer.Frames.{WireFrame, v1_frame, Item, noise, whole, wire, encode}
use open_ipc_mobile_gs.Mavlink.Router.{
  Kind, udp_out, udp_server, tcp_server, MavlinkEndpoint, Address, Endpoint, MavlinkRouter,
  initial_router, set_endpoints, set_uplink_callback, start, stop, clear_endpoints, all_fds,
}
use open_ipc_mobile_gs.Mavlink.Router.Opening.{
  SocketCalls, endpoint_on, rebuild_endpoints, resolve_ipv4, open_endpoint, open_endpoints, set_up,
  add_endpoint,
}
use open_ipc_mobile_gs.Mavlink.Router.Traffic.{handle_endpoint_data, uplink}
use open_ipc_mobile_gs.Mavlink.Router.Poll.{
  Answer, woken, timed_out, bytes_from, failed, poll_once, serve, slots, handle_slots, handle_slot,
  handle_present, handle_socket, accept_client, handle_datagram, take_data, close_clients,
}
use open_ipc_mobile_gs.Mavlink.Router.Descriptors.{
  Reachable, fresh, configured, listening, started, stopped, polled, Reachable-Balanced,
  Reachable_settled,
}
use open_ipc_mobile_gs.Mavlink.Router.Descriptors.Balance.{count, Balanced}
use open_ipc_mobile_gs.Mavlink.Router.Streams.{
  feed_all, Turn, round, feed, take_turns, take_turns-restart,
}
use open_ipc_mobile_gs.Mavlink.Router.Streams.Uplink.{handle_reads, handle_reads-wire}
use open_ipc_mobile_gs.Mavlink.Router.Streams.Downlink.{
  received_by, hits, receivers, feed_all-received_by,
}

abbrev endpoint_of : Kind → MavlinkEndpoint
endpoint_of kind = record {
  kind = kind;
  host = b'x' ∷ [];
  port = pos 14550;
  enabled = true;
  allow_uplink = true;
}

-- Every host is 127.0.0.1, and the descriptors are numbered from 5.
abbrev localhost : Bytes → Option ℕ
localhost host = some 2130706433

abbrev numbered : ℕ → SocketCalls
numbered n = record { socket_fd = some (n + 5); bind_ok = true; listen_ok = true }

abbrev configuration : List MavlinkEndpoint
configuration = endpoint_of udp_out ∷ endpoint_of tcp_server ∷ endpoint_of udp_server ∷ []

abbrev begun : MavlinkRouter
begun = (start (some (3, 4)) (set_uplink_callback (set_endpoints initial_router configuration))).0

abbrev up : MavlinkRouter
up = (poll_once localhost numbered true timed_out begun).0

opened_sockets : all_fds up.endpoints ≡ 5 ∷ 6 ∷ 7 ∷ []
unfolding start set_endpoints poll_once rebuild_endpoints open_endpoints open_endpoint set_up
    add_endpoint clear_endpoints resolve_ipv4
opened_sockets = refl

-- The TCP server accepts client 8, then the UDP server hears from a peer.
abbrev peer : Address
peer = record { ip = 1; port = 2 }

abbrev quiet : Answer
quiet = record {
  any = false;
  readable = false;
  hung_up = false;
  received = failed;
  accepted = none;
}

abbrev answers : List Answer
answers =
    quiet
    ∷ record { any = true; readable = true; hung_up = false; received = failed; accepted = some 8 }
    ∷ record {
      any = true;
      readable = true;
      hung_up = false;
      received = bytes_from peer (1 ∷ 2 ∷ []);
      accepted = none;
    }
    ∷ []

abbrev served : MavlinkRouter
served = (poll_once localhost numbered true (woken false answers) up).0

served_receivers :
    receivers served.endpoints
    ≡ (5, some (record { ip = 2130706433; port = 14550 })) ∷ (8, none) ∷ (7, some peer) ∷ []
unfolding start set_endpoints poll_once rebuild_endpoints open_endpoints open_endpoint set_up
    add_endpoint clear_endpoints resolve_ipv4 serve slots handle_slots handle_slot handle_present
    handle_socket accept_client handle_datagram take_data handle_endpoint_data uplink close_clients
    Framer.push inspect frame_len message_at drop_byte deliver add64
served_receivers = refl

begun_runs : begun.running ≡ true
unfolding start set_endpoints
begun_runs = refl

up_runs : (up.running ≡ true) × (up.endpoints_dirty ≡ false)
unfolding start set_endpoints poll_once rebuild_endpoints open_endpoints open_endpoint set_up
    add_endpoint clear_endpoints resolve_ipv4
up_runs = (refl, refl)

served_Reachable : Reachable served
served_Reachable = polled {r = up} localhost numbered true (woken false answers) up_runs.0 (
    polled {r = begun} localhost numbered true timed_out begun_runs
      (started (some (3, 4)) (listening (configured configuration fresh))))

Reachable-Balanced_example : Balanced 8 served
Reachable-Balanced_example = Reachable-Balanced 8 served_Reachable

-- After the run the router is stopped.
stopped_idle : (stop served).running ≡ false
unfolding start set_endpoints poll_once rebuild_endpoints open_endpoints open_endpoint set_up
    add_endpoint clear_endpoints resolve_ipv4 serve slots handle_slots handle_slot handle_present
    handle_socket accept_client handle_datagram take_data handle_endpoint_data uplink close_clients
    stop Framer.push inspect frame_len message_at drop_byte deliver add64
stopped_idle = refl

Reachable_settled_example : count 8 (stop served).opened ≡ count 8 (stop served).closed
Reachable_settled_example = Reachable_settled 8 (stopped {r = served} served_Reachable) stopped_idle

-- A round without data, telemetry for the applications, and a round with data.
abbrev turns : List Turn
turns =
    round numbered true timed_out
    ∷ feed (1 ∷ 2 ∷ [])
    ∷ round numbered true (woken false answers)
    ∷ []

take_turns-restart_example :
    let later = take_turns localhost (start (some (3, 4)) (stop up)).0 turns in
    (later.running ≡ true) × (later.endpoints ≡ []) × (later.sent ≡ up.sent)
take_turns-restart_example = take_turns-restart localhost (3, 4) up turns up_runs.0 up_runs.1

-- The socket numbered 5, whatever the address.
abbrev on_five : ℕ → Option Address → Bool
on_five fd to = fd == 5

five_once : hits on_five (receivers up.endpoints) ≡ 1
unfolding start set_endpoints poll_once rebuild_endpoints open_endpoints open_endpoint set_up
    add_endpoint clear_endpoints resolve_ipv4
five_once = refl

up_counts : up.downlink_bytes ≡ 0
unfolding start set_endpoints poll_once rebuild_endpoints open_endpoints open_endpoint set_up
    add_endpoint clear_endpoints resolve_ipv4
up_counts = refl

abbrev calls : List Bytes
calls = (1 ∷ 2 ∷ []) ∷ [] ∷ (3 ∷ []) ∷ []

feed_all-received_by_example :
    (received_by on_five (feed_all up calls).sent ≡ received_by on_five up.sent ++ (1 ∷ 2 ∷ 3 ∷ []))
    × ((feed_all up calls).downlink_bytes ≡ add64 up.downlink_bytes 3)
feed_all-received_by_example =
    feed_all-received_by up calls on_five five_once (omega (arith, up_counts))

-- A ground control station's heartbeat in two reads, with noise in front.
abbrev heartbeat : WireFrame
heartbeat = v1_frame 0 255 190 0 (replicate 9 0) (0 ∷ 0 ∷ [])

abbrev items : List Item
items = noise 0x11 ∷ whole heartbeat ∷ []

abbrev station : Endpoint
station = endpoint_on (endpoint_of udp_out) 5 none

abbrev listener : MavlinkRouter
listener = set_uplink_callback initial_router

handle_reads-wire_example :
    ((handle_reads (listener, station) (take 4 (wire items) ∷ drop 4 (wire items) ∷ [])).0.uplinked
      ≡ encode heartbeat ∷ [])
    × ((handle_reads
          (listener, station)
          (take 4 (wire items) ∷ drop 4 (wire items) ∷ [])).0.uplink_bytes
        ≡ add64 0 17)
handle_reads-wire_example =
    handle_reads-wire listener station (take 4 (wire items)) (drop 4 (wire items) ∷ []) items refl
      refl refl (omega arith) (omega arith) refl
