-- ===== src/Ground/Payloads/Dispatch.antt =====
-- What reaches the parts of `GroundStation` (gslib/src/main/cpp/ground_station.cpp) of the frames
-- that its source delivers.
use open_ipc_mobile_gs.Rtp.Depacketizer as Rtp
use open_ipc_mobile_gs.Prelude.{
  ℕ, ◌≡◌, refl, sym, ap, ◌∙◌, inl, inr, true, false, some, List, [], ◌∷◌, ◌++◌, ◌==◌, Bytes, arith,
  Bool-cases,
}
use open_ipc_mobile_gs.Wfb.Receiver.{
  Packet, Aggregator, Sink, Delivery, WfbReceiver, find_sink, process_frame,
}
use open_ipc_mobile_gs.Wfb.Receiver.Streams.{
  Arrival, payloads_of, alone, alone_payloads, arrived, packets_on, process_frame-settings,
  process_frame-Received, alone_payloads-append,
}
use open_ipc_mobile_gs.Rtp.Depacketizer.{RtpDepacketizer}
use open_ipc_mobile_gs.Mavlink.Router.Traffic.{feed_downlink}
use open_ipc_mobile_gs.Ground.{GroundStation, port_video, port_mavlink_rx}
use open_ipc_mobile_gs.Ground.Payloads.{
  on_video_payload, on_telemetry_payload, on_tunnel_payload, on_delivery, on_deliveries, on_frame,
  on_frames,
}

-- A part of the station that gets the payloads in turn.
abbrev pub each {ℓ} : {X : Type ℓ} → (X → Bytes → X) → X → List Bytes → X
each h x [] = x
each h x (b ∷ bs) = each h (h x b) bs

each-append {ℓ} :
    {X : Type ℓ} (h : X → Bytes → X) (x : X) (bs cs : List Bytes)
    → each h x (bs ++ cs) ≡ each h (each h x bs) cs
each-append h x [] cs = refl
each-append h x (b ∷ bs) cs = each-append h (h x b) bs cs

module _ {D : Type 0} {A : Type 0} {S : Type 0} where
  on_delivery-receiver :
      (g : GroundStation D A S) (d : Delivery) → (on_delivery g d).receiver ≡ g.receiver
  unfolding on_delivery on_video_payload on_telemetry_payload on_tunnel_payload
  on_delivery-receiver g d = ground arith

  on_deliveries-receiver :
      (g : GroundStation D A S) (ds : List Delivery) → (on_deliveries g ds).receiver ≡ g.receiver
  on_deliveries-receiver g [] = refl
  on_deliveries-receiver g (d ∷ ds) =
      on_deliveries-receiver (on_delivery g d) ds ∙ on_delivery-receiver g d

  -- A part that the payloads of one port reach, by the handler `h`, and nothing else.
  record IsFed {X : Type 0} (part : GroundStation D A S → X) (port : ℕ) (h : X → Bytes → X)
      : Type 0 where
    apart :
        (g : GroundStation D A S) (r : WfbReceiver A)
        → part (record g { receiver = some r }) ≡ part g
    here :
        (g : GroundStation D A S) (d : Delivery)
        → (d.port == port) ≡ true
        → part (on_delivery g d) ≡ h (part g) d.payload
    elsewhere :
        (g : GroundStation D A S) (d : Delivery)
        → (d.port == port) ≡ false
        → part (on_delivery g d) ≡ part g

  video-IsFed : IsFed (λ g. g.depacketizer) port_video (λ d b. (Rtp.push d b).0)
  unfolding on_delivery on_video_payload on_telemetry_payload on_tunnel_payload
  video-IsFed = record {
    apart = λ g r. refl;
    here = λ g d h. ground (arith, h);
    elsewhere = λ g d h. ground (arith, h);
  }

  telemetry-IsFed : IsFed (λ g. g.mavlink) port_mavlink_rx feed_downlink
  unfolding on_delivery on_video_payload on_telemetry_payload on_tunnel_payload
  telemetry-IsFed = record {
    apart = λ g r. refl;
    here = λ g d h. ground (arith, h);
    elsewhere = λ g d h. ground (arith, h);
  }

  module _ {X : Type 0} {part : GroundStation D A S → X} {port : ℕ} {h : X → Bytes → X}
      (fed : IsFed part port h) where
    on_deliveries-fed :
        (g : GroundStation D A S) (ds : List Delivery)
        → part (on_deliveries g ds) ≡ each h (part g) (payloads_of port ds)
    on_deliveries-fed g [] = refl
    on_deliveries-fed g (d ∷ ds) = elim (Bool-cases (d.port == port)) [
      | inl e ↦ rw e (
          on_deliveries-fed (on_delivery g d) ds
          ∙ ap (λ x. each h x (payloads_of port ds)) (fed.here g d e))
      | inr e ↦ rw e (
          on_deliveries-fed (on_delivery g d) ds
          ∙ ap (λ x. each h x (payloads_of port ds)) (fed.elsewhere g d e))
    ]

    module _ (agg : Aggregator A) where
      -- What the part is, and the stream's sink, after the packets of a list.
      Heard : ℕ → Sink A → X → List Packet → GroundStation D A S → Type 0
      Heard link_id s x ps g =
          (r : WfbReceiver A) × (g.receiver ≡ some r)
          × (r.link_id ≡ link_id)
          × (find_sink port r.sinks ≡ some (alone agg s ps))
          × (part g ≡ each h x (alone_payloads agg s ps))

      on_frame-Heard :
          (g : GroundStation D A S) (r : WfbReceiver A) (s : Sink A) (a : Arrival)
          → g.receiver ≡ some r
          → find_sink port r.sinks ≡ some s
          → Heard r.link_id s (part g) (arrived agg r.link_id port a) (on_frame agg g a)
      unfolding on_frame Heard
      on_frame-Heard g r s a e found =
          let start : WfbReceiver A = record r { delivered = [] } in
          let next = process_frame agg start a.frame a.meta in
          let got = process_frame-Received agg start port s a found in
          let held : GroundStation D A S = record g { receiver = some next } in
          let same : on_frame agg g a ≡ on_deliveries held next.delivered = rw (e, on_frame) refl in
          let fed_now : part (on_deliveries held next.delivered)
              ≡ each h (part g) (alone_payloads agg s (arrived agg r.link_id port a)) =
            on_deliveries-fed held next.delivered
            ∙ ap (each h (part held)) got.1
            ∙ ap (λ x. each h x (alone_payloads agg s (arrived agg r.link_id port a)))
                (fed.apart g next) in
          (
            next,
            ap (λ (g' : GroundStation D A S). g'.receiver) same
                ∙ on_deliveries-receiver held next.delivered,
            (process_frame-settings agg start a).0,
            got.0,
            ap part same ∙ fed_now,
          )

      on_frames-Heard :
          (g : GroundStation D A S) (r : WfbReceiver A) (s : Sink A) (news : List Arrival)
          → g.receiver ≡ some r
          → find_sink port r.sinks ≡ some s
          → part (on_frames agg g news)
            ≡ each h (part g) (alone_payloads agg s (packets_on agg r.link_id port news))
      unfolding Heard
      on_frames-Heard g r s [] e found = refl
      on_frames-Heard g r s (a ∷ news) e found =
          let ps = arrived agg r.link_id port a in
          let v = on_frame-Heard g r s a e found in
          let rest = on_frames-Heard (on_frame agg g a) v.0 (alone agg s ps) news v.1 v.3 in
          let qs = packets_on agg r.link_id port news in
          rest
          ∙ ap
              (λ n.
                each h (part (on_frame agg g a))
                  (alone_payloads agg (alone agg s ps) (packets_on agg n port news)))
              v.2
          ∙ ap (λ x. each h x (alone_payloads agg (alone agg s ps) qs)) v.4
          ∙ sym (
              each-append h (part g) (alone_payloads agg s ps)
                (alone_payloads agg (alone agg s ps) qs))
          ∙ ap (each h (part g)) (sym (alone_payloads-append agg s ps qs))

  -- Whatever frames a running station gets from its adapter, the depacketiser is pushed exactly the
  -- payloads that the video stream's aggregator makes of the frames of the video port alone, in
  -- order, and the MAVLink router is fed exactly those of the telemetry port, in order.
  pub on_frames-parts :
      (agg : Aggregator A) (g : GroundStation D A S) (r : WfbReceiver A) (video telemetry : Sink A)
      (news : List Arrival)
      → g.receiver ≡ some r
      → find_sink port_video r.sinks ≡ some video
      → find_sink port_mavlink_rx r.sinks ≡ some telemetry
      → ((on_frames agg g news).depacketizer
          ≡ each
              (λ d b. (Rtp.push d b).0)
              g.depacketizer
              (alone_payloads agg video (packets_on agg r.link_id port_video news)))
        × ((on_frames agg g news).mavlink
            ≡ each feed_downlink g.mavlink
                (alone_payloads agg telemetry (packets_on agg r.link_id port_mavlink_rx news)))
  on_frames-parts agg g r video telemetry news e v t = (
    on_frames-Heard video-IsFed agg g r video news e v,
    on_frames-Heard telemetry-IsFed agg g r telemetry news e t,
  )
