-- ===== src/Wfb/Tests.antt =====
-- The link's frames on concrete values.
use open_ipc_mobile_gs.Prelude.{◌≡◌, refl, some, none, [], ◌∷◌, arith, drop, Bytes}
use open_ipc_mobile_gs.Prelude.{List, ◌≤◌}
use open_ipc_mobile_gs.Prelude.Int.{pos, negsuc, ◌+ℤ◌}
use open_ipc_mobile_gs.Wfb.Signal.{
  FrameMeta, take_signal, reset_signal, accumulate_signal, accumulate_paths, accumulate,
  antenna_stats, antenna_stat, average,
}
use open_ipc_mobile_gs.Wfb.Signal.Bounds.{accumulate_all, AllInBounds, take_signal_bounds}
use open_ipc_mobile_gs.Wfb.Frame.{
  channel_id, classify_frame, uplink_frame, channel_bytes, copy_at, has_markers, same_channel,
}
use open_ipc_mobile_gs.Wfb.Frame.Uplink.{classify_frame-uplink_frame}

abbrev data_bytes : Bytes
data_bytes = 1 ∷ 2 ∷ 3 ∷ 4 ∷ 5 ∷ []

-- The default link and the port of the MAVLink uplink.
uplink_of_default : classify_frame 7669206 (uplink_frame 7669206 0x90 data_bytes) ≡ some 0x90
unfolding classify_frame uplink_frame channel_id channel_bytes copy_at has_markers same_channel
uplink_of_default = refl

-- A link number of more than 24 bits loses its top byte in the channel, so nothing matches it.
wide_link : classify_frame 16777217 (uplink_frame 16777217 0x90 data_bytes) ≡ none
unfolding classify_frame uplink_frame channel_id channel_bytes copy_at has_markers same_channel
wide_link = refl

classify_frame-uplink_frame_example :
    (classify_frame 7669206 (uplink_frame 7669206 0x90 data_bytes) ≡ some 0x90)
    × (drop 24 (uplink_frame 7669206 0x90 data_bytes) ≡ data_bytes)
classify_frame-uplink_frame_example =
    classify_frame-uplink_frame 7669206 7669206 0x90 data_bytes (omega arith) (omega arith)
      (omega arith)

-- Two frames on two paths.
abbrev metas : List FrameMeta
metas =
    record {
      rssi = negsuc 49 ∷ negsuc 59 ∷ pos 0 ∷ pos 0 ∷ [];
      snr = pos 20 ∷ pos 25 ∷ pos 0 ∷ pos 0 ∷ [];
      paths = pos 2;
      freq_mhz = 5825;
      mcs_index = 1;
      bandwidth = 20;
      wlan_idx = 0;
    }
    ∷ record {
      rssi = negsuc 54 ∷ negsuc 63 ∷ pos 0 ∷ pos 0 ∷ [];
      snr = pos 23 ∷ pos 28 ∷ pos 0 ∷ pos 0 ∷ [];
      paths = pos 2;
      freq_mhz = 5825;
      mcs_index = 1;
      bandwidth = 20;
      wlan_idx = 0;
    }
    ∷ []

best_of_two :
    ((take_signal (accumulate_all reset_signal metas)).0.best_rssi ≡ negsuc 51)
    × ((take_signal (accumulate_all reset_signal metas)).0.best_snr ≡ pos 26)
unfolding take_signal accumulate_signal accumulate_paths accumulate antenna_stats antenna_stat
    average ◌+ℤ◌
best_of_two = (refl, refl)

take_signal_bounds_example :
    AllInBounds (take_signal (accumulate_all reset_signal metas)).0.antennas
    × ((take_signal (accumulate_all reset_signal metas)).0.num_antennas ≤ 4)
take_signal_bounds_example = take_signal_bounds metas (omega arith) (ground arith)
