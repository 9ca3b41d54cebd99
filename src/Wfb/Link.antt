-- ===== src/Wfb/Link.antt =====
-- `LinkSnapshot` (core/include/openipc/link_stats.h): one interval's figures of the link.
use open_ipc_mobile_gs.Prelude.{ℕ, Bool, false, List, []}
use open_ipc_mobile_gs.Prelude.Int.{ℤ, pos, negsuc}
use open_ipc_mobile_gs.Wfb.Signal.{AntennaStat}

pub record LinkSnapshot : Type 0 where
  pub packets_all : ℕ
  pub packets_data : ℕ
  pub packets_session : ℕ
  pub packets_lost : ℕ
  pub packets_fec_recovered : ℕ
  pub packets_bad : ℕ
  pub packets_decrypt_err : ℕ
  pub bytes_all : ℕ
  pub fec_k : ℤ
  pub fec_n : ℤ
  pub antennas : List AntennaStat
  pub best_rssi : ℤ
  pub best_snr : ℤ
  pub num_antennas : ℕ
  pub session_established : Bool
  pub timestamp_ms : ℕ

-- `LinkSnapshot snapshot;`
abbrev pub empty_snapshot : LinkSnapshot
empty_snapshot = record {
  packets_all = 0;
  packets_data = 0;
  packets_session = 0;
  packets_lost = 0;
  packets_fec_recovered = 0;
  packets_bad = 0;
  packets_decrypt_err = 0;
  bytes_all = 0;
  fec_k = negsuc 0;
  fec_n = negsuc 0;
  antennas = [];
  best_rssi = negsuc 104;
  best_snr = pos 0;
  num_antennas = 0;
  session_established = false;
  timestamp_ms = 0;
}
