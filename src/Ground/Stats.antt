-- ===== src/Ground/Stats.antt =====
-- A round of `GroundStation::StatsLoop` (gslib/src/main/cpp/ground_station.cpp).
pub mod Uplink
use open_ipc_mobile_gs.Prelude.{
  ℕ, ◌+◌, ◌-◌, ◌/◌, ◌%◌, Bool, true, false, Option, none, some, List, [], ◌∷◌, ◌++◌, leb,
  if◌then◌else◌, Bytes, add64, u64_mod,
}
use open_ipc_mobile_gs.Prelude.Int.{ℤ, pos, negsuc}
use open_ipc_mobile_gs.Wfb.Link.{LinkSnapshot, empty_snapshot}
use open_ipc_mobile_gs.Wfb.Receiver.{Aggregator, WfbReceiver, take_snapshot, after_snapshot}
use open_ipc_mobile_gs.Alink.Scoring.{Double}
use open_ipc_mobile_gs.Alink.Controller.{AlinkController, Occasion, Updated, update}
use open_ipc_mobile_gs.Alink.Framing.{frame_message}
use open_ipc_mobile_gs.Ground.{PacketSource, GroundStation, port_tunnel_tx, send_uplink}

-- What a round reads: the clock for the snapshot and for adaptive link, and the draws for a code.
pub record Tick : Type 0 where
  pub stamp : ℕ
  pub now : ℕ
  pub draws : List ℕ

-- `static_cast<uint64_t>(interval)`
abbrev pub u64_of : ℤ → ℕ
u64_of (pos n) = n % u64_mod
u64_of (negsuc n) = u64_mod - 1 - n % u64_mod

-- The snapshot of a round.
unfoldable pub snapshot_of : {A : Type 0} → Aggregator A → Option (WfbReceiver A) → ℕ → LinkSnapshot
snapshot_of agg none stamp = record empty_snapshot { timestamp_ms = stamp }
snapshot_of agg (some r) stamp = take_snapshot agg r stamp

module _ {D : Type 0} {A : Type 0} {S : Type 0} where
  -- The station with the snapshot taken, published and shown.
  unfoldable pub publish_stats : Aggregator A → GroundStation D A S → ℕ → GroundStation D A S
  publish_stats agg g stamp =
      let snapshot = snapshot_of agg g.receiver stamp in
      record g {
        receiver = elim g.receiver [ none ↦ none | some r ↦ some (after_snapshot agg r) ];
        stats = snapshot;
        published = g.published ++ (snapshot ∷ []);
      }

  -- The message of adaptive link, framed and sent.
  unfoldable pub send_alink :
      Double D
      → PacketSource S
      → GroundStation D A S
      → AlinkController D
      → LinkSnapshot
      → Tick
      → GroundStation D A S
  send_alink double sources g c snapshot tick =
      let u =
        update double c
          (record { snapshot = snapshot; unix_time = tick.now / 1000; draws = tick.draws }) in
      send_uplink sources (record g { alink = some u.controller }) port_tunnel_tx
        (frame_message u.result.message)

  abbrev pub alink_turn :
      Double D
      → PacketSource S
      → GroundStation D A S
      → Option (AlinkController D)
      → Option (WfbReceiver A)
      → ℕ
      → Tick
      → GroundStation D A S × ℕ
  alink_turn double sources g none receiver next_alink tick = (g, next_alink)
  alink_turn double sources g (some c) none next_alink tick = (g, next_alink)
  alink_turn double sources g (some c) (some r) next_alink tick =
      let sent = send_alink double sources g c g.stats tick in
      if leb next_alink tick.now
      then (sent, add64 tick.now (u64_of g.config.alink.interval_ms))
      else (g, next_alink)

  -- The body of the loop behind the sleep, with the time of the next message.
  unfoldable pub stats_round :
      Double D
      → Aggregator A
      → PacketSource S
      → GroundStation D A S × ℕ
      → Tick
      → GroundStation D A S × ℕ
  unfolding publish_stats send_alink
  stats_round double agg sources (g, next_alink) tick =
      let shown = publish_stats agg g tick.stamp in
      alink_turn double sources shown shown.alink shown.receiver next_alink tick
