-- ===== src/Alink/Controller/Samples.antt =====
-- Sample values of adaptive link for the tests.
use open_ipc_mobile_gs.Prelude.{◌/◌, true, ◌&&◌, not, []}
use open_ipc_mobile_gs.Prelude.Int.{
  ℤ, pos, negsuc, pos_part, neg_part, sub_ℕ, ltb_ℤ, ◌+ℤ◌, ◌-ℤ◌, ◌*ℤ◌,
}
use open_ipc_mobile_gs.Alink.Scoring.{Double, AlinkConfig}

abbrev divide_ℤ : ℤ → ℤ → ℤ
divide_ℤ a b = sub_ℕ (pos_part a / pos_part b) (neg_part a / pos_part b)

-- Whole numbers; a quotient loses its fraction, and a power is its base.
abbrev pub whole_numbers : Double ℤ
whole_numbers = record {
  of_int = λ z. z;
  add = λ a b. a +ℤ b;
  sub = λ a b. a -ℤ b;
  mul = λ a b. a *ℤ b;
  div = divide_ℤ;
  pow = λ a b. a;
  lt = ltb_ℤ;
  eq = λ a b. not (ltb_ℤ a b) && not (ltb_ℤ b a);
  truncate = λ z. z;
  round = λ z. z;
}

abbrev pub two_requests : AlinkConfig ℤ
two_requests = record {
  enabled = true;
  udp_host = [];
  udp_port = pos 9999;
  interval_ms = pos 100;
  snr_weight = pos 0;
  rssi_weight = pos 1;
  snr_min = pos 12;
  snr_max = pos 38;
  rssi_min = negsuc 79;
  rssi_max = negsuc 29;
  allow_idr = true;
  idr_max_messages = pos 2;
  allow_penalty = true;
  allow_fec_increase = true;
  min_noise = pos 1;
  max_noise = pos 10;
  deduction_exponent = pos 1;
  min_noise_for_fec_change = pos 1;
  noise_for_max_fec_change = pos 10;
  kalman_estimate = pos 1;
  kalman_error_estimate = pos 1;
  process_variance = pos 1;
  measurement_variance = pos 1;
}
