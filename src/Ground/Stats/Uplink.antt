-- ===== src/Ground/Stats/Uplink.antt =====
-- What `GroundStation::StatsLoop` (gslib/src/main/cpp/ground_station.cpp) sends up, as the air unit
-- sees it.
use open_ipc_mobile_gs.Prelude.{
  ℕ, ◌+◌, ◌/◌, ◌≤◌, ◌<◌, ◌≡◌, refl, sym, ap, ◌∙◌, true, none, some, [], ◌∷◌, ◌++◌, Bytes, arith,
  length, drop, ◌==◌, if◌then◌else◌, leb, add64,
}
use mathlib.Core.List.{append-nil}
use open_ipc_mobile_gs.Wfb.Link.{LinkSnapshot}
use open_ipc_mobile_gs.Wfb.Frame.{classify_frame, uplink_frame}
use open_ipc_mobile_gs.Wfb.Frame.Uplink.{classify_frame-uplink_frame}
use open_ipc_mobile_gs.Wfb.Receiver.{Aggregator, WfbReceiver, take_snapshot, after_snapshot}
use open_ipc_mobile_gs.Alink.Scoring.{Double}
use open_ipc_mobile_gs.Alink.Controller.{AlinkController, Occasion, update}
use open_ipc_mobile_gs.Alink.Controller.Bounds.{update-length}
use open_ipc_mobile_gs.Alink.Framing.{
  frame_message, length-frame_message, read_all, read_all-frames,
}
use open_ipc_mobile_gs.Ground.{
  devourer, PacketSource, GroundStation, port_tunnel_tx, send_uplink, send_by_source,
}
use open_ipc_mobile_gs.Ground.Stats.{
  Tick, u64_of, snapshot_of, publish_stats, send_alink, alink_turn, stats_round,
}

le→leb : (a b : ℕ) → a ≤ b → leb a b ≡ true
le→leb a b h = ground arith

same_link : (n : ℕ) → (n == n) ≡ true
same_link n = ground arith

abbrev pub occasion_of : {A : Type 0} → Aggregator A → WfbReceiver A → Tick → Occasion
occasion_of agg r tick = record {
  snapshot = take_snapshot agg r tick.stamp;
  unix_time = tick.now / 1000;
  draws = tick.draws;
}

-- The message that is due in a round.
abbrev pub message_due :
    {D : Type 0} {A : Type 0}
    → Double D
    → Aggregator A
    → AlinkController D
    → WfbReceiver A
    → Tick
    → Bytes
message_due double agg c r tick = (update double c (occasion_of agg r tick)).result.message

abbrev frame_for : {D : Type 0} → Double D → ℕ → AlinkController D → LinkSnapshot → Tick → Bytes
frame_for double link_id c snapshot tick = uplink_frame link_id port_tunnel_tx (
    frame_message
      (update double c (record {
        snapshot = snapshot;
        unix_time = tick.now / 1000;
        draws = tick.draws;
      })).result.message)

module _ {D : Type 0} {A : Type 0} {S : Type 0} (double : Double D) (agg : Aggregator A)
    (sources : PacketSource S) where
  send_alink_lem :
      (g : GroundStation D A S) (c : AlinkController D) (s : S) (snapshot : LinkSnapshot)
      (tick : Tick)
      → g.source ≡ some s
      → g.config.source ≡ devourer
      → (send_alink double sources g c snapshot tick).transmitted
        ≡ g.transmitted ++ (frame_for double g.config.radio.link_id c snapshot tick ∷ [])
  unfolding send_alink send_uplink
  send_alink_lem g c s snapshot tick hs hd =
      rw (hs, hd, send_alink, send_uplink, send_by_source) refl

  alink_turn_due :
      (g : GroundStation D A S) (c : AlinkController D) (r : WfbReceiver A) (next_alink : ℕ)
      (tick : Tick)
      → next_alink ≤ tick.now
      → alink_turn double sources g (some c) (some r) next_alink tick ≡ (
        send_alink double sources g c g.stats tick,
        add64 tick.now (u64_of g.config.alink.interval_ms),
      )
  alink_turn_due g c r next_alink tick due = rw (le→leb next_alink tick.now due) refl

  -- In the round, one frame goes to the source, and the time of the next message is set.
  stats_round_due :
      (g : GroundStation D A S) (c : AlinkController D) (r : WfbReceiver A) (s : S) (next_alink : ℕ)
      (tick : Tick)
      → g.source ≡ some s
      → g.config.source ≡ devourer
      → g.alink ≡ some c
      → g.receiver ≡ some r
      → next_alink ≤ tick.now
      → ((stats_round double agg sources (g, next_alink) tick).0.transmitted
          ≡ g.transmitted
            ++ (frame_for double g.config.radio.link_id c (take_snapshot agg r tick.stamp) tick
                ∷ []))
        × ((stats_round double agg sources (g, next_alink) tick).1
            ≡ add64 tick.now (u64_of g.config.alink.interval_ms))
  unfolding stats_round publish_stats snapshot_of
  stats_round_due g c r s next_alink tick hs hd ha hr due =
      let shown = publish_stats agg g tick.stamp in
      let left : shown.receiver ≡ some (after_snapshot agg r) = rw (hr, publish_stats) refl in
      let turn = alink_turn_due shown c (after_snapshot agg r) next_alink tick due in
      let whole_turn : stats_round double agg sources (g, next_alink) tick
          ≡ alink_turn double sources shown (some c) (some (after_snapshot agg r)) next_alink tick =
        λ i. alink_turn double sources shown (ha i) (left i) next_alink tick in
      let seen : shown.stats ≡ take_snapshot agg r tick.stamp =
        ap (λ x. snapshot_of agg x tick.stamp) hr in
      (
        ap (λ p. p.0.transmitted) (whole_turn ∙ turn)
            ∙ send_alink_lem shown c s shown.stats tick hs hd
            ∙ ap (λ x. g.transmitted ++ (frame_for double g.config.radio.link_id c x tick ∷ []))
                seen,
        ap (λ p. p.1) (whole_turn ∙ turn),
      )

  -- When a message is due in a station that runs on an adapter, with adaptive link on, the round
  -- hands exactly one more frame to the source. A receiver of the same link, a number below 2^24,
  -- takes it for the tunnel's uplink port; behind the header there is the message of the snapshot
  -- just taken with its length prefix and no further byte, and a reader of the length prefixes gets
  -- that message and nothing else, however often it looks for a next one. The draws for a code are
  -- four, and a code in force has four letters at most.
  pub stats_round-classify_frame :
      (g : GroundStation D A S) (c : AlinkController D) (r : WfbReceiver A) (s : S) (next_alink : ℕ)
      (tick : Tick)
      → g.source ≡ some s
      → g.config.source ≡ devourer
      → g.alink ≡ some c
      → g.receiver ≡ some r
      → next_alink ≤ tick.now
      → g.config.radio.link_id < 16777216
      → length tick.draws ≡ 4
      → length c.idr_code ≤ 4
      → (frame : Bytes) × ((stats_round double agg sources (g, next_alink) tick).0.transmitted
          ≡ g.transmitted ++ (frame ∷ []))
        × (classify_frame g.config.radio.link_id frame ≡ some port_tunnel_tx)
        × (drop 24 frame ≡ frame_message (message_due double agg c r tick))
        × ((n : ℕ) → read_all (n + 1) (drop 24 frame) ≡ message_due double agg c r tick ∷ [])
  stats_round-classify_frame g c r s next_alink tick hs hd ha hr due link four code =
      let message = message_due double agg c r tick in
      let link_id = g.config.radio.link_id in
      let short = update-length double c (occasion_of agg r tick) four code in
      let sent = (stats_round_due g c r s next_alink tick hs hd ha hr due).0 in
      let on_air =
        classify_frame-uplink_frame link_id link_id port_tunnel_tx (frame_message message) link
          (omega arith) (length-frame_message message) in
      (
        uplink_frame link_id port_tunnel_tx (frame_message message),
        sent,
        on_air.0 ∙ ap (λ b. if b then some port_tunnel_tx else none) (same_link link_id),
        on_air.1,
        λ n.
            ap (read_all (n + 1)) (on_air.1 ∙ sym (append-nil (frame_message message)))
            ∙ read_all-frames (n + 1) (message ∷ []) (omega arith) (omega (arith, short), tt),
      )
