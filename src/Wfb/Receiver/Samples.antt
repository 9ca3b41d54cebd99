-- ===== src/Wfb/Receiver/Samples.antt =====
-- Sample values of the receiver for the tests: an aggregator that passes each packet on and counts it.
use open_ipc_mobile_gs.Prelude.{ℕ, ◌+◌, false, some, [], ◌∷◌, ◌++◌, Bytes}
use open_ipc_mobile_gs.Prelude.Int.{pos, negsuc}
use open_ipc_mobile_gs.Wfb.Frame.{uplink_frame}
use open_ipc_mobile_gs.Wfb.Signal.{FrameMeta}
use open_ipc_mobile_gs.Wfb.Receiver.{Aggregator, Sink, WfbReceiver, new_receiver}
use open_ipc_mobile_gs.Wfb.Receiver.Streams.{Arrival}

abbrev pub passing : Aggregator ℕ
passing = record {
  rx_ant_max = 4;
  construct = λ key_path epoch channel. some 0;
  process_packet = λ a p. (a + 1, p.payload ∷ []);
  counters = λ a. record {
    count_p_all = a;
    count_b_all = 0;
    count_p_data = a;
    count_p_session = 0;
    count_p_lost = 0;
    count_p_fec_recovered = 0;
    count_p_bad = 0;
    count_p_dec_err = 0;
  };
  clear_stats = λ a. 0;
}

abbrev pub idle_sink : Sink ℕ
idle_sink = record { aggregator = 0; session_seen = false }

abbrev pub two_streams : WfbReceiver ℕ
two_streams = record (new_receiver 7669206 []) {
  sinks = record { port = 0; sink = idle_sink } ∷ record { port = 0x10; sink = idle_sink } ∷ [];
}

abbrev pub quiet_meta : FrameMeta
quiet_meta = record {
  rssi = negsuc 79 ∷ pos 0 ∷ pos 0 ∷ pos 0 ∷ [];
  snr = pos 60 ∷ pos 0 ∷ pos 0 ∷ pos 0 ∷ [];
  paths = pos 1;
  freq_mhz = 5825;
  mcs_index = 1;
  bandwidth = 20;
  wlan_idx = 0;
}

abbrev pub arrival_on : ℕ → Bytes → Arrival
arrival_on port payload = record {
  frame = uplink_frame 7669206 port payload ++ (0 ∷ 0 ∷ 0 ∷ 0 ∷ []);
  meta = quiet_meta;
}
