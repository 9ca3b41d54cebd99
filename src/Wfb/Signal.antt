-- ===== src/Wfb/Signal.antt =====
-- The signal figures of `WfbReceiver` (core/src/wfb/wfb_receiver.cpp): `AccumulateSignal`,
-- `ResetSignal` and what `TakeSnapshot` makes of them. The count and the sums are `int32_t`; an
-- overflow, which C++ leaves undefined, wraps around here as two's complement does.
pub mod Average
pub mod Bounds
use open_ipc_mobile_gs.Prelude.{
  ℕ, zero, suc, ◌+◌, ◌-◌, ◌/◌, ◌%◌, ◌^◌, Bool, List, [], ◌∷◌, ltb, ◌==◌, if◌then◌else◌, length, min,
  replicate,
}
use open_ipc_mobile_gs.Prelude.Int.{ℤ, pos, negsuc, pos_part, neg_part, sub_ℕ, ltb_ℤ, ◌+ℤ◌}

-- The sum as an `int32_t`, with its wrap-around.
abbrev pub int32_of : ℤ → ℤ
int32_of (pos n) =
    let low = n % 2 ^ 32 in if ltb low (2 ^ 31) then pos low else negsuc (2 ^ 32 - 1 - low)
int32_of (negsuc n) =
    let low = n % 2 ^ 32 in if ltb low (2 ^ 31) then negsuc low else pos (2 ^ 32 - 1 - low)

abbrev pub is_zero : ℤ → Bool
is_zero x = pos_part x + neg_part x == 0

pub record PathAccumulator : Type 0 where
  pub count : ℤ
  pub rssi_sum : ℤ
  pub snr_sum : ℤ
  pub rssi_min : ℤ
  pub rssi_max : ℤ
  pub snr_min : ℤ
  pub snr_max : ℤ

abbrev pub empty_path : PathAccumulator
empty_path = record {
  count = pos 0;
  rssi_sum = pos 0;
  snr_sum = pos 0;
  rssi_min = pos 0;
  rssi_max = pos 0;
  snr_min = pos 0;
  snr_max = pos 0;
}

-- Both lists have four entries.
pub record FrameMeta : Type 0 where
  pub rssi : List ℤ
  pub snr : List ℤ
  pub paths : ℤ
  pub freq_mhz : ℕ
  pub mcs_index : ℕ
  pub bandwidth : ℕ
  pub wlan_idx : ℕ

pub record AntennaStat : Type 0 where
  pub antenna_id : ℕ
  pub count : ℤ
  pub rssi_min : ℤ
  pub rssi_avg : ℤ
  pub rssi_max : ℤ
  pub snr_min : ℤ
  pub snr_avg : ℤ
  pub snr_max : ℤ

-- What `TakeSnapshot` fills in from the paths.
pub record SignalSnapshot : Type 0 where
  pub antennas : List AntennaStat
  pub best_rssi : ℤ
  pub best_snr : ℤ
  pub num_antennas : ℕ

abbrev pub min_ℤ : ℤ → ℤ → ℤ
min_ℤ a b = if ltb_ℤ b a then b else a

abbrev pub max_ℤ : ℤ → ℤ → ℤ
max_ℤ a b = if ltb_ℤ a b then b else a

-- The body of the loop over the paths.
unfoldable pub accumulate : PathAccumulator → ℤ → ℤ → PathAccumulator
accumulate acc rssi snr = record {
  count = int32_of (acc.count +ℤ pos 1);
  rssi_sum = int32_of (acc.rssi_sum +ℤ rssi);
  snr_sum = int32_of (acc.snr_sum +ℤ snr);
  rssi_min = if is_zero acc.count then rssi else min_ℤ acc.rssi_min rssi;
  rssi_max = if is_zero acc.count then rssi else max_ℤ acc.rssi_max rssi;
  snr_min = if is_zero acc.count then snr else min_ℤ acc.snr_min snr;
  snr_max = if is_zero acc.count then snr else max_ℤ acc.snr_max snr;
}

unfoldable pub accumulate_paths : ℕ → List PathAccumulator → List ℤ → List ℤ → List PathAccumulator
accumulate_paths zero accs rssi snr = accs
accumulate_paths (suc n) [] rssi snr = []
accumulate_paths (suc n) (a ∷ accs) [] snr = a ∷ accs
accumulate_paths (suc n) (a ∷ accs) (r ∷ rssi) [] = a ∷ accs
accumulate_paths (suc n) (a ∷ accs) (r ∷ rssi) (s ∷ snr) =
    accumulate a r s ∷ accumulate_paths n accs rssi snr

unfoldable pub accumulate_signal : List PathAccumulator → FrameMeta → List PathAccumulator
accumulate_signal accs meta = accumulate_paths (min (pos_part meta.paths) 4) accs meta.rssi meta.snr

abbrev pub reset_signal : List PathAccumulator
reset_signal = replicate 4 empty_path

-- The division of C, which rounds towards zero.
abbrev pub divide : ℤ → ℤ → ℤ
divide (pos n) (pos count) = pos (n / count)
divide (negsuc n) (pos count) = sub_ℕ 0 (suc n / count)
divide (pos n) (negsuc count) = sub_ℕ 0 (n / suc count)
divide (negsuc n) (negsuc count) = pos (suc n / suc count)

-- `static_cast<int8_t>`
abbrev pub int8_of : ℤ → ℤ
int8_of (pos n) = if ltb (n % 256) 128 then pos (n % 256) else negsuc (255 - n % 256)
int8_of (negsuc n) = if ltb (n % 256) 128 then negsuc (n % 256) else pos (255 - n % 256)

unfoldable pub average : ℤ → ℤ → ℤ
average sum count = int8_of (divide sum count)

unfoldable pub antenna_stat : ℕ → PathAccumulator → AntennaStat
antenna_stat active acc = record {
  antenna_id = active;
  count = acc.count;
  rssi_min = acc.rssi_min;
  rssi_avg = average acc.rssi_sum acc.count;
  rssi_max = acc.rssi_max;
  snr_min = acc.snr_min;
  snr_avg = average acc.snr_sum acc.count;
  snr_max = acc.snr_max;
}

-- The loop over the paths, numbered from `active`; a path without frames is left out.
unfoldable pub antenna_stats : ℕ → List PathAccumulator → List AntennaStat
antenna_stats active [] = []
antenna_stats active (acc ∷ accs) =
    let rest = antenna_stats (active + 1) accs in
    let skipped = antenna_stats active accs in
    if is_zero acc.count then skipped else antenna_stat active acc ∷ rest

abbrev pub best_of_rssi : ℤ → List AntennaStat → ℤ
best_of_rssi best [] = best
best_of_rssi best (s ∷ ss) = best_of_rssi (max_ℤ best s.rssi_avg) ss

abbrev pub best_of_snr : ℤ → List AntennaStat → ℤ
best_of_snr best [] = best
best_of_snr best (s ∷ ss) = best_of_snr (max_ℤ best s.snr_avg) ss

-- The figures, and the paths as they are reset.
unfoldable pub take_signal : List PathAccumulator → SignalSnapshot × List PathAccumulator
take_signal accs =
    let stats = antenna_stats 0 accs in
    (
      record {
        antennas = stats;
        best_rssi = best_of_rssi (negsuc 104) stats;
        best_snr = best_of_snr (pos 0) stats;
        num_antennas = length stats;
      },
      reset_signal,
    )
