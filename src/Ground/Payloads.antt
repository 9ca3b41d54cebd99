-- ===== src/Ground/Payloads.antt =====
-- What `GroundStation` (gslib/src/main/cpp/ground_station.cpp) does with what its source delivers:
-- `OnVideoPayload`, `OnTelemetryPayload`, `OnTunnelPayload` and the callbacks that lead to them.
pub mod Dispatch
use open_ipc_mobile_gs.Prelude.{
  ℕ, Bool, true, false, Option, none, some, List, [], ◌∷◌, ◌++◌, map, ◌==◌, if◌then◌else◌, Bytes,
  length, drop,
}
use open_ipc_mobile_gs.Wfb.Signal.{FrameMeta}
use open_ipc_mobile_gs.Wfb.Receiver.{Aggregator, Delivery, WfbReceiver, process_frame}
use open_ipc_mobile_gs.Wfb.Receiver.Streams.{Arrival}
use open_ipc_mobile_gs.Rtp.Depacketizer.{NalUnit, RtpDepacketizer}
use open_ipc_mobile_gs.Rtp.Depacketizer as Rtp
use open_ipc_mobile_gs.Msp.Decoder as Msp
use open_ipc_mobile_gs.Mavlink.Router.{MavlinkRouter}
use open_ipc_mobile_gs.Mavlink.Router.Traffic.{feed_downlink}
use open_ipc_mobile_gs.Ground.{
  PacketSource, GroundStation, port_video, port_mavlink_rx, port_tunnel_rx, port_mavlink_tx,
  send_uplink,
}

module _ {D : Type 0} {A : Type 0} {S : Type 0} where
  -- The units that this push appends to the log go to the mirror, if there is one.
  unfoldable pub on_video_payload : GroundStation D A S → Bytes → GroundStation D A S
  on_video_payload g payload =
      let d = (Rtp.push g.depacketizer payload).0 in
      let news = drop (length g.depacketizer.emitted) d.emitted in
      record g {
        depacketizer = d;
        mirrored = elim g.mirror_fd [
          | none ↦ g.mirrored
          | some fd ↦ g.mirrored ++ map (λ (n : NalUnit). n.bytes) news
        ];
      }

  unfoldable pub on_telemetry_payload : GroundStation D A S → Bytes → GroundStation D A S
  on_telemetry_payload g payload = record g {
    mavlink = feed_downlink g.mavlink payload;
    osd = Msp.push g.osd payload;
  }

  unfoldable pub on_tunnel_payload : GroundStation D A S → Bytes → GroundStation D A S
  on_tunnel_payload g payload = record g { osd = Msp.push g.osd payload }

  -- The callback of the stream that a payload belongs to.
  unfoldable pub on_delivery : GroundStation D A S → Delivery → GroundStation D A S
  unfolding on_video_payload on_telemetry_payload on_tunnel_payload
  on_delivery g d =
      if d.port == port_video
      then on_video_payload g d.payload
      else if d.port == port_mavlink_rx
      then on_telemetry_payload g d.payload
      else if d.port == port_tunnel_rx
      then on_tunnel_payload g d.payload
      else g

  abbrev pub on_deliveries : GroundStation D A S → List Delivery → GroundStation D A S
  on_deliveries g [] = g
  on_deliveries g (d ∷ ds) = on_deliveries (on_delivery g d) ds

  -- The frame callback; the receiver's log holds the calls that this frame makes.
  unfoldable pub on_frame : Aggregator A → GroundStation D A S → Arrival → GroundStation D A S
  unfolding on_delivery
  on_frame agg g a = elim g.receiver [
    | none ↦ g
    | some r ↦
        let next = process_frame agg (record r { delivered = [] }) a.frame a.meta in
        on_deliveries (record g { receiver = some next }) next.delivered
  ]

  abbrev pub on_frames : Aggregator A → GroundStation D A S → List Arrival → GroundStation D A S
  on_frames agg g [] = g
  on_frames agg g (a ∷ news) = on_frames agg (on_frame agg g a) news

  -- The datagram callback of a UDP source.
  unfoldable pub on_datagram : GroundStation D A S → Bytes → GroundStation D A S
  unfolding on_video_payload
  on_datagram g bytes = on_video_payload g bytes

  abbrev pub send_all : PacketSource S → GroundStation D A S → List Bytes → GroundStation D A S
  send_all sources g [] = g
  send_all sources g (b ∷ bs) = send_all sources (send_uplink sources g port_mavlink_tx b) bs

  -- The router's uplink callback: what its log has more than before goes up.
  unfoldable pub on_router :
      PacketSource S → GroundStation D A S → MavlinkRouter → GroundStation D A S
  on_router sources g next =
      send_all sources (record g { mavlink = next })
        (drop (length g.mavlink.uplinked) next.uplinked)
