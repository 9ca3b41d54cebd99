-- ===== src/Ground/Lifecycle/Usage.antt =====
-- A session of `GroundStation` (gslib/src/main/cpp/ground_station.cpp): a start, any calls, a stop.
use mathlib.Core.List.{append-nil}
use open_ipc_mobile_gs.Prelude.{
  ℕ, ◌≡◌, refl, sym, ap, ◌∙◌, inl, inr, Bool, true, false, not, ◌&&◌, Option, none, some, List, [],
  ◌∷◌, ◌++◌, ◌==◌, leb, Bytes, if◌then◌else◌, if_either, ◌/◌, length, drop, Bool-cases,
  Option-cases, add64,
}
use open_ipc_mobile_gs.Prelude.Int.{ℤ, pos, ltb_ℤ}
use open_ipc_mobile_gs.Wfb.Link.{LinkSnapshot}
use open_ipc_mobile_gs.Wfb.Receiver.{Aggregator, Delivery, WfbReceiver, process_frame}
use open_ipc_mobile_gs.Wfb.Receiver.Streams.{Arrival}
use open_ipc_mobile_gs.Rtp.Header.{VideoCodec}
use open_ipc_mobile_gs.Alink.Scoring.{Double, AlinkConfig}
use open_ipc_mobile_gs.Alink.Controller.{AlinkController, update}
use open_ipc_mobile_gs.Alink.Framing.{frame_message}
use open_ipc_mobile_gs.Mavlink.Router.{MavlinkEndpoint, MavlinkRouter, fd_list}
use open_ipc_mobile_gs.Mavlink.Router.Opening.{same_bytes}
use open_ipc_mobile_gs.Ground.{
  SourceKind, devourer, udp, pcap_file, Bandwidth, GsConfig, PacketSource, GroundStation,
  send_uplink, send_by_source, set_mavlink_endpoints, set_alink_config, set_video_codec,
  set_channel, port_video, port_mavlink_rx, port_tunnel_rx, port_tunnel_tx, port_mavlink_tx,
}
use open_ipc_mobile_gs.Ground.Payloads.{
  on_video_payload, on_telemetry_payload, on_tunnel_payload, on_delivery, on_deliveries, on_frame,
  on_datagram, send_all, on_router,
}
use open_ipc_mobile_gs.Ground.Stats.{
  Tick, publish_stats, u64_of, send_alink, alink_turn, stats_round,
}
use open_ipc_mobile_gs.Ground.Lifecycle.{
  StartCalls, is_some, connect_mirror, connect_parts, open_mirror, start_station, stop_station,
}
use open_ipc_mobile_gs.Ground.Lifecycle.Mirror.{
  SameMirror, prepared, create_alink-Same, start_station-Outcome,
}

-- What happens to a station that runs.
pub data Call (D : Type 0) : Type 0 where
  frame_call : Arrival → Call D
  datagram_call : Bytes → Call D
  router_call : MavlinkRouter → Call D
  stats_call : ℕ → Tick → Call D
  endpoints_call : List MavlinkEndpoint → Call D
  alink_call : AlinkConfig D → Call D
  codec_call : VideoCodec → Call D
  channel_call : ℤ → Bandwidth → Call D

module _ {D : Type 0} {A : Type 0} {S : Type 0} where
  -- The mirror and the running state stay.
  abbrev Keeps : GroundStation D A S → GroundStation D A S → Type 0
  Keeps g h = SameMirror g h × (h.running ≡ g.running)

  Keeps-refl : (g : GroundStation D A S) → Keeps g g
  Keeps-refl g = ((refl, refl, refl), refl)

  Keeps-trans : (g h k : GroundStation D A S) → Keeps g h → Keeps h k → Keeps g k
  Keeps-trans g h k u v = ((v.0.0 ∙ u.0.0, v.0.1 ∙ u.0.1, v.0.2 ∙ u.0.2), v.1 ∙ u.1)

  on_delivery-Keeps : (g : GroundStation D A S) (d : Delivery) → Keeps g (on_delivery g d)
  unfolding on_delivery on_video_payload on_telemetry_payload on_tunnel_payload
  on_delivery-Keeps g d =
      let here = Keeps-refl g in
      if_either (Keeps g) (d.port == port_video) (on_video_payload g d.payload) _ here (
        if_either (Keeps g) (d.port == port_mavlink_rx) (on_telemetry_payload g d.payload) _ here (
          if_either (Keeps g) (d.port == port_tunnel_rx) (on_tunnel_payload g d.payload) g here
            here))

  on_deliveries-Keeps :
      (g : GroundStation D A S) (ds : List Delivery) → Keeps g (on_deliveries g ds)
  on_deliveries-Keeps g [] = Keeps-refl g
  on_deliveries-Keeps g (d ∷ ds) =
      Keeps-trans g (on_delivery g d) (on_deliveries (on_delivery g d) ds) (on_delivery-Keeps g d)
        (on_deliveries-Keeps (on_delivery g d) ds)

  on_frame-Keeps :
      (agg : Aggregator A) (g : GroundStation D A S) (a : Arrival) → Keeps g (on_frame agg g a)
  unfolding on_frame
  on_frame-Keeps agg g a = elim (Option-cases g.receiver) [
    | inl e ↦ rw (e, on_frame) (Keeps-refl g)
    | inr r ↦
        let next = process_frame agg (record (r.0) { delivered = [] }) a.frame a.meta in
        rw (r.1, on_frame) (on_deliveries-Keeps (record g { receiver = some next }) next.delivered)
  ]

  module _ (sources : PacketSource S) where
    send_by_source-Keeps :
        (kind : SourceKind) (g : GroundStation D A S) (s : S) (port : ℕ) (bytes : Bytes)
        → Keeps g (send_by_source sources kind g s port bytes)
    send_by_source-Keeps devourer g s port bytes = Keeps-refl g
    send_by_source-Keeps udp g s port bytes = Keeps-refl g
    send_by_source-Keeps pcap_file g s port bytes = Keeps-refl g

    send_uplink-Keeps :
        (g : GroundStation D A S) (port : ℕ) (bytes : Bytes)
        → Keeps g (send_uplink sources g port bytes)
    unfolding send_uplink
    send_uplink-Keeps g port bytes = elim (Option-cases g.source) [
      | inl e ↦ rw (e, send_uplink) (Keeps-refl g)
      | inr s ↦ rw (s.1, send_uplink) (send_by_source-Keeps g.config.source g s.0 port bytes)
    ]

    send_all-Keeps : (g : GroundStation D A S) (bs : List Bytes) → Keeps g (send_all sources g bs)
    send_all-Keeps g [] = Keeps-refl g
    send_all-Keeps g (b ∷ bs) =
        let sent = send_uplink sources g port_mavlink_tx b in
        Keeps-trans g sent (send_all sources sent bs) (send_uplink-Keeps g port_mavlink_tx b)
          (send_all-Keeps sent bs)

    set_channel-Keeps :
        (g : GroundStation D A S) (channel : ℤ) (bandwidth : Bandwidth)
        → Keeps g (set_channel sources g channel bandwidth).0
    unfolding set_channel
    set_channel-Keeps g channel bandwidth = elim (Option-cases g.source) [
      | inl e ↦ rw (e, set_channel) (Keeps-refl g)
      | inr s ↦ rw (s.1, set_channel) (Keeps-refl g)
    ]

    set_alink_config-Keeps :
        (g : GroundStation D A S) (config : AlinkConfig D) → Keeps g (set_alink_config g config)
    unfolding set_alink_config
    set_alink_config-Keeps g config = elim (Bool-cases config.enabled) [
      | inl e ↦ rw (e, set_alink_config) (Keeps-refl g)
      | inr e ↦ rw (e, set_alink_config) (Keeps-refl g)
    ]

    module _ (double : Double D) (agg : Aggregator A) where
      send_alink-Keeps :
          (g : GroundStation D A S) (c : AlinkController D) (snapshot : LinkSnapshot) (tick : Tick)
          → Keeps g (send_alink double sources g c snapshot tick)
      unfolding send_alink
      send_alink-Keeps g c snapshot tick =
          let u =
            update double c
              (record { snapshot = snapshot; unix_time = tick.now / 1000; draws = tick.draws }) in
          send_uplink-Keeps (record g { alink = some u.controller }) port_tunnel_tx
            (frame_message u.result.message)

      alink_turn-Keeps :
          (g : GroundStation D A S) (c : Option (AlinkController D)) (r : Option (WfbReceiver A))
          (next_alink : ℕ) (tick : Tick)
          → Keeps g (alink_turn double sources g c r next_alink tick).0
      alink_turn-Keeps g none r next_alink tick = Keeps-refl g
      alink_turn-Keeps g (some c) none next_alink tick = Keeps-refl g
      alink_turn-Keeps g (some c) (some r) next_alink tick =
          if_either (λ (p : GroundStation D A S × ℕ). Keeps g p.0) (leb next_alink tick.now)
            (
              send_alink double sources g c g.stats tick,
              add64 tick.now (u64_of g.config.alink.interval_ms),
            )
            (g, next_alink) (send_alink-Keeps g c g.stats tick) (Keeps-refl g)

      pub apply_call : GroundStation D A S → Call D → GroundStation D A S
      apply_call g (frame_call a) = on_frame agg g a
      apply_call g (datagram_call bytes) = on_datagram g bytes
      apply_call g (router_call next) = on_router sources g next
      apply_call g (stats_call next_alink tick) =
          (stats_round double agg sources (g, next_alink) tick).0
      apply_call g (endpoints_call endpoints) = set_mavlink_endpoints g endpoints
      apply_call g (alink_call config) = set_alink_config g config
      apply_call g (codec_call codec) = set_video_codec g codec
      apply_call g (channel_call channel bandwidth) = (set_channel sources g channel bandwidth).0

      abbrev pub apply_calls : GroundStation D A S → List (Call D) → GroundStation D A S
      apply_calls g [] = g
      apply_calls g (c ∷ cs) = apply_calls (apply_call g c) cs

      apply_call-Keeps : (g : GroundStation D A S) (c : Call D) → Keeps g (apply_call g c)
      unfolding apply_call on_datagram on_video_payload on_router stats_round publish_stats
          set_mavlink_endpoints set_video_codec
      apply_call-Keeps g (frame_call a) = on_frame-Keeps agg g a
      apply_call-Keeps g (datagram_call bytes) = Keeps-refl g
      apply_call-Keeps g (router_call next) =
          send_all-Keeps (record g { mavlink = next })
            (drop (length g.mavlink.uplinked) next.uplinked)
      apply_call-Keeps g (stats_call next_alink tick) =
          let shown = publish_stats agg g tick.stamp in
          alink_turn-Keeps shown shown.alink shown.receiver next_alink tick
      apply_call-Keeps g (endpoints_call endpoints) = Keeps-refl g
      apply_call-Keeps g (alink_call config) = set_alink_config-Keeps g config
      apply_call-Keeps g (codec_call codec) = Keeps-refl g
      apply_call-Keeps g (channel_call channel bandwidth) = set_channel-Keeps g channel bandwidth

      apply_calls-Keeps :
          (g : GroundStation D A S) (cs : List (Call D)) → Keeps g (apply_calls g cs)
      apply_calls-Keeps g [] = Keeps-refl g
      apply_calls-Keeps g (c ∷ cs) =
          Keeps-trans g (apply_call g c) (apply_calls (apply_call g c) cs) (apply_call-Keeps g c)
            (apply_calls-Keeps (apply_call g c) cs)

  -- The sockets opened are those closed and the one held.
  abbrev Settled : GroundStation D A S → Type 0
  Settled g = g.opened ≡ g.closed ++ fd_list g.mirror_fd

  Same-Settled : (g h : GroundStation D A S) → SameMirror g h → Settled g → Settled h
  Same-Settled g h same v = same.1 ∙ v ∙ λ i. sym same.2 i ++ fd_list (sym same.0 i)

  connect_mirror-Settled :
      (ready : Bool) (g : GroundStation D A S) (socket : Option ℕ)
      → g.opened ≡ g.closed
      → Settled (connect_mirror ready g socket)
  connect_mirror-Settled ready g none h = h ∙ sym (append-nil g.closed)
  connect_mirror-Settled true g (some fd) h = ap (◌++ (fd ∷ [])) h
  connect_mirror-Settled false g (some fd) h =
      ap (◌++ (fd ∷ [])) h ∙ sym (append-nil (g.closed ++ (fd ∷ [])))

  module _ (agg : Aggregator A) (sources : PacketSource S) (calls : StartCalls) (usb_fd : ℤ) where
    prepared-Settled :
        (config : GsConfig D) (g : GroundStation D A S)
        → g.mirror_fd ≡ none
        → g.opened ≡ g.closed
        → Settled (prepared agg sources calls usb_fd config g)
    unfolding prepared open_mirror connect_parts
    prepared-Settled config g free h =
        let c = connect_parts calls config g in
        let wanted =
          not (same_bytes config.video_mirror_host []) && ltb_ℤ (pos 0) config.video_mirror_port in
        let ready = is_some (calls.inet_pton config.video_mirror_host) && calls.connect_ok in
        let nothing : Settled c =
          h ∙ sym (append-nil g.closed) ∙ ap (λ fd. g.closed ++ fd_list fd) (sym free) in
        let opened : Settled (open_mirror calls c) =
          if_either Settled (not wanted) c (connect_mirror ready c calls.mirror_socket) nothing
            (connect_mirror-Settled ready c calls.mirror_socket h) in
        Same-Settled (open_mirror calls c) (prepared agg sources calls usb_fd config g)
          (create_alink-Same agg sources calls usb_fd (open_mirror calls c)).0 opened

    stop_station-Settled :
        (g : GroundStation D A S)
        → g.running ≡ true
        → Settled g
        → let h = stop_station agg sources g in
          (h.running ≡ false) × (h.mirror_fd ≡ none) × (h.opened ≡ h.closed)
    unfolding stop_station
    stop_station-Settled g on h = rw (on, stop_station) (refl, refl, h)

    -- A session of a station that does not run and whose sockets for the mirror are all closed: if the
    -- start succeeds, then after any calls and a stop it does not run, holds no mirror socket, and has
    -- closed those it opened, each once and in order.
    pub start_station-settled :
        (double : Double D) (config : GsConfig D) (g : GroundStation D A S) (cs : List (Call D))
        → g.running ≡ false
        → g.mirror_fd ≡ none
        → g.opened ≡ g.closed
        → (start_station agg sources calls config usb_fd g).1 ≡ true
        → let h = stop_station agg sources (
            apply_calls sources double agg
              (start_station agg sources calls config usb_fd g).0
              cs) in
          (h.running ≡ false) × (h.mirror_fd ≡ none) × (h.opened ≡ h.closed)
    start_station-settled double config g cs idle free h success =
        let p = start_station agg sources calls config usb_fd g in
        let o = start_station-Outcome agg sources calls usb_fd config g idle in
        let k = apply_calls-Keeps sources double agg p.0 cs in
        let ready = prepared agg sources calls usb_fd config g in
        let started : Settled p.0 = Same-Settled ready p.0 o.0 (prepared-Settled config g free h) in
        stop_station-Settled (apply_calls sources double agg p.0 cs)
          (k.1 ∙ o.1 ∙ ap (λ b. if b then true else ready.running) success)
          (Same-Settled p.0 (apply_calls sources double agg p.0 cs) k.0 started)
