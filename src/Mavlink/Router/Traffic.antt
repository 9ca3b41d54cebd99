-- ===== src/Mavlink/Router/Traffic.antt =====
-- `MavlinkRouter::HandleEndpointData` and `MavlinkRouter::FeedDownlink`
-- (core/src/mavlink/router.cpp): what goes up and what goes down.
use open_ipc_mobile_gs.Prelude.{
  ℕ, true, not, ◌||◌, Option, none, some, List, [], ◌∷◌, ◌++◌, map, ◌==◌, if◌then◌else◌, length,
  drop, Bytes, add64,
}
use open_ipc_mobile_gs.Mavlink.Framer.{MavlinkFramer, MavlinkMessage}
use open_ipc_mobile_gs.Mavlink.Framer as Framer
use open_ipc_mobile_gs.Mavlink.Router.{
  Kind, Address, Endpoint, Sent, MavlinkRouter, udp_out, udp_server, tcp_server,
}

-- The callback that `HandleEndpointData` sets.
unfoldable pub uplink : MavlinkRouter → MavlinkMessage → MavlinkRouter
uplink r m = record r {
  uplink_bytes = add64 r.uplink_bytes m.size;
  uplinked = r.uplinked ++ (m.bytes ∷ []);
}

abbrev pub uplink_all : MavlinkRouter → List MavlinkMessage → MavlinkRouter
uplink_all r [] = r
uplink_all r (m ∷ ms) = uplink_all (uplink r m) ms

-- The messages that this push appends to the framer's log go up.
unfoldable pub handle_endpoint_data : MavlinkRouter → Endpoint → Bytes → MavlinkRouter × Endpoint
unfolding uplink
handle_endpoint_data r e bytes =
    let f = Framer.push (record e.framer { callback_set = true }) bytes in
    let news = drop (length e.framer.delivered) f.delivered in
    if not e.config.allow_uplink || not r.uplink_set
    then (r, e)
    else (uplink_all r news, record e { framer = f })

abbrev pub send_to_peer : ℕ → Option Address → Bytes → List Sent
send_to_peer fd none bytes = []
send_to_peer fd (some peer) bytes = record { fd = fd; to = some peer; bytes = bytes } ∷ []

abbrev pub send_by_kind : Kind → Endpoint → ℕ → Bytes → List Sent
send_by_kind tcp_server e fd bytes =
    map (λ client. record { fd = client; to = none; bytes = bytes }) e.clients
send_by_kind udp_server e fd bytes = send_to_peer fd e.peer bytes
send_by_kind udp_out e fd bytes = send_to_peer fd e.peer bytes

-- The body of the loop over the endpoints in `FeedDownlink`.
unfoldable pub sends : Endpoint → Bytes → List Sent
sends e bytes = elim e.fd [ none ↦ [] | some fd ↦ send_by_kind e.config.kind e fd bytes ]

abbrev pub all_sends : List Endpoint → Bytes → List Sent
all_sends [] bytes = []
all_sends (e ∷ es) bytes = sends e bytes ++ all_sends es bytes

unfoldable pub feed_downlink : MavlinkRouter → Bytes → MavlinkRouter
unfolding sends
feed_downlink r bytes = if length bytes == 0 then r else record r {
  downlink_bytes = add64 r.downlink_bytes (length bytes);
  downlink_framer = Framer.push r.downlink_framer bytes;
  sent = r.sent ++ all_sends r.endpoints bytes;
}
