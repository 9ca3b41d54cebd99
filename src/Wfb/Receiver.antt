-- ===== src/Wfb/Receiver.antt =====
-- The streams of `WfbReceiver` (core/src/wfb/wfb_receiver.cpp): one wfb-ng aggregator for each radio
-- port, the frames that reach it, and the counters of a snapshot. The aggregator is a parameter, and
-- the calls of the streams' callbacks are a log.
pub mod Streams
pub mod Session
pub mod Samples
mod Tests
use open_ipc_mobile_gs.Prelude.{
  ℕ, zero, suc, ◌+◌, ◌-◌, ◌%◌, min, max, Bool, true, false, ◌||◌, Option, none, some, List, [], ◌∷◌,
  ◌++◌, map, ltb, ◌==◌, if◌then◌else◌, Bytes, length, take, drop,
}
use mathlib.Core.Option as Option
use open_ipc_mobile_gs.Prelude.Int.{ℤ, pos, negsuc, pos_part, ◌-ℤ◌}
use open_ipc_mobile_gs.Prelude.{get_or}
use open_ipc_mobile_gs.Wfb.Frame.{channel_id, classify_frame}
use open_ipc_mobile_gs.Wfb.Signal.{
  PathAccumulator, FrameMeta, int8_of, accumulate_signal, reset_signal, take_signal,
}
use open_ipc_mobile_gs.Wfb.Link.{LinkSnapshot, empty_snapshot}

-- The arguments of `Aggregator::process_packet` that the code fills in.
pub record Packet : Type 0 where
  pub payload : Bytes
  pub wlan_idx : ℕ
  pub antenna : List ℕ
  pub rssi : List ℤ
  pub noise : List ℤ
  pub freq_mhz : ℕ
  pub mcs_index : ℕ
  pub bandwidth : ℕ

-- The counters of an aggregator that the snapshot copies.
pub record Counters : Type 0 where
  pub count_p_all : ℕ
  pub count_b_all : ℕ
  pub count_p_data : ℕ
  pub count_p_session : ℕ
  pub count_p_lost : ℕ
  pub count_p_fec_recovered : ℕ
  pub count_p_bad : ℕ
  pub count_p_dec_err : ℕ

-- The aggregator of wfb-ng: its constructor, which throws if it cannot read the key file, and
-- `process_packet` with the payloads that it sends to `send_to_socket`, in order.
pub record Aggregator (A : Type 0) : Type 0 where
  pub rx_ant_max : ℕ
  pub construct : Bytes → ℕ → ℕ → Option A
  pub process_packet : A → Packet → A × List Bytes
  pub counters : A → Counters
  pub clear_stats : A → A

pub record Sink (A : Type 0) : Type 0 where
  pub aggregator : A
  pub session_seen : Bool

pub record Stream (A : Type 0) : Type 0 where
  pub port : ℕ
  pub sink : Sink A

-- A call of a stream's callback.
pub record Delivery : Type 0 where
  pub port : ℕ
  pub payload : Bytes

pub record WfbReceiver (A : Type 0) : Type 0 where
  pub link_id : ℕ
  pub key_path : Bytes
  pub sinks : List (Stream A)
  pub primary_port : ℕ
  pub paths : List PathAccumulator
  pub delivered : List Delivery

module _ {A : Type 0} where
  abbrev pub new_receiver : ℕ → Bytes → WfbReceiver A
  new_receiver link_id key_path = record {
    link_id = link_id;
    key_path = key_path;
    sinks = [];
    primary_port = 0x00;
    paths = reset_signal;
    delivered = [];
  }

  -- `sinks_.find(port)`
  unfoldable pub find_sink : ℕ → List (Stream A) → Option (Sink A)
  find_sink port [] = none
  find_sink port (s ∷ ss) =
      let rest = find_sink port ss in if s.port == port then some s.sink else rest

  -- `sinks_[port] = sink`
  unfoldable pub set_sink : ℕ → Sink A → List (Stream A) → List (Stream A)
  set_sink port sink [] = record { port = port; sink = sink } ∷ []
  set_sink port sink (s ∷ ss) =
      let rest = set_sink port sink ss in
      if s.port == port then record { port = port; sink = sink } ∷ ss else s ∷ rest

-- What the loop over the antenna slots makes of each, from slot `i` on.
abbrev pub fill_slots {ℓ} : {B : Type ℓ} → (ℕ → B) → ℕ → ℕ → List B
fill_slots f i zero = []
fill_slots f i (suc n) = f i ∷ fill_slots f (suc i) n

-- `static_cast<int8_t>(meta.rssi[i] - meta.snr[i])`
unfoldable pub noise_of : ℤ → ℤ → ℤ
noise_of rssi snr = int8_of (rssi -ℤ snr)

-- Each call of `send_to_socket` sets the mark.
abbrev pub mark_seen : Bool → List Bytes → Bool
mark_seen seen [] = seen
mark_seen seen (b ∷ bs) = true

module _ {A : Type 0} (agg : Aggregator A) where
  open agg use {rx_ant_max, construct, process_packet, counters, clear_stats}

  -- The packet for the aggregator: what stands between the header and the checksum, and the figures
  -- of the paths.
  unfoldable pub packet_of : Bytes → FrameMeta → Packet
  unfolding noise_of
  packet_of frame meta =
      let paths = max 1 (min (pos_part meta.paths) rx_ant_max) in
      let rssi : ℕ → ℤ = λ i. get_or meta.rssi i (pos 0) in
      let snr : ℕ → ℤ = λ i. get_or meta.snr i (pos 0) in
      record {
        payload = take (length frame - 24 - 4) (drop 24 frame);
        wlan_idx = meta.wlan_idx;
        antenna = fill_slots (λ i. if ltb i paths then i % 256 else 0xff) 0 rx_ant_max;
        rssi = fill_slots (λ i. if ltb i paths then rssi i else pos 0) 0 rx_ant_max;
        noise =
            fill_slots (λ i. if ltb i paths then noise_of (rssi i) (snr i) else pos 127) 0
              rx_ant_max;
        freq_mhz = meta.freq_mhz;
        mcs_index = meta.mcs_index;
        bandwidth = meta.bandwidth;
      }

  -- None where the constructor throws, which leaves the receiver as it was.
  unfoldable pub add_stream : WfbReceiver A → ℕ → Option (WfbReceiver A)
  add_stream r port =
      Option.map
        (λ a. record r {
          sinks = set_sink port (record { aggregator = a; session_seen = false }) r.sinks;
        })
        (construct r.key_path 0 (channel_id r.link_id port))

  -- A packet at the stream's sink, with the payloads for the callback.
  unfoldable pub sink_packet : Sink A → Packet → Sink A
  sink_packet s p =
      let out = process_packet s.aggregator p in
      record { aggregator = out.0; session_seen = mark_seen s.session_seen out.1 }

  unfoldable pub sink_payloads : Sink A → Packet → List Bytes
  sink_payloads s p = (process_packet s.aggregator p).1

  unfoldable pub process_at : WfbReceiver A → ℕ → Sink A → Bytes → FrameMeta → WfbReceiver A
  unfolding packet_of sink_packet sink_payloads
  process_at r port sink frame meta =
      let packet = packet_of frame meta in
      record r {
        sinks = set_sink port (sink_packet sink packet) r.sinks;
        paths = if port == r.primary_port then accumulate_signal r.paths meta else r.paths;
        delivered =
            r.delivered
            ++ map (λ b. record { port = port; payload = b }) (sink_payloads sink packet);
      }

  unfoldable pub process_frame : WfbReceiver A → Bytes → FrameMeta → WfbReceiver A
  unfolding process_at
  process_frame r frame meta = elim (classify_frame r.link_id frame) [
    | none ↦ r
    | some port ↦ elim (find_sink port r.sinks) [
      | none ↦ r
      | some sink ↦ process_at r port sink frame meta
    ]
  ]

  unfoldable pub sink_established : Sink A → Bool
  sink_established s = ltb 0 (counters s.aggregator).count_p_session || s.session_seen

  unfoldable pub session_established : WfbReceiver A → Bool
  unfolding sink_established
  session_established r = elim (find_sink r.primary_port r.sinks) [
    | none ↦ false
    | some s ↦ sink_established s
  ]

  -- The counters of the primary stream, in the snapshot.
  unfoldable pub copy_counters : LinkSnapshot → Sink A → LinkSnapshot
  unfolding sink_established
  copy_counters snapshot s =
      let c = counters s.aggregator in
      record snapshot {
        packets_all = c.count_p_all;
        bytes_all = c.count_b_all;
        packets_data = c.count_p_data;
        packets_session = c.count_p_session;
        packets_lost = c.count_p_lost;
        packets_fec_recovered = c.count_p_fec_recovered;
        packets_bad = c.count_p_bad;
        packets_decrypt_err = c.count_p_dec_err;
        session_established = sink_established s;
      }

  -- The snapshot at the time `now`.
  unfoldable pub take_snapshot : WfbReceiver A → ℕ → LinkSnapshot
  unfolding copy_counters
  take_snapshot r now =
      let signal = (take_signal r.paths).0 in
      let stamped = record empty_snapshot { timestamp_ms = now } in
      let counted : LinkSnapshot = elim (find_sink r.primary_port r.sinks) [
        | none ↦ stamped
        | some s ↦ copy_counters stamped s
      ] in
      record counted {
        antennas = signal.antennas;
        best_rssi = signal.best_rssi;
        best_snr = signal.best_snr;
        num_antennas = signal.num_antennas;
      }

  -- The receiver that a snapshot leaves behind.
  unfoldable pub after_snapshot : WfbReceiver A → WfbReceiver A
  after_snapshot r = record r {
    sinks = elim (find_sink r.primary_port r.sinks) [
      | none ↦ r.sinks
      | some s ↦
          set_sink r.primary_port (record s { aggregator = clear_stats s.aggregator }) r.sinks
    ];
    paths = (take_signal r.paths).1;
  }
