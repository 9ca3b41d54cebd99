-- ===== src/Alink/Scoring.antt =====
-- The arithmetic of `AlinkController::Update` (core/src/alink/alink.cpp). `double` and its operations
-- are a parameter; all literals of the code are whole numbers.
use open_ipc_mobile_gs.Prelude.{ℕ, Bool, not, ◌&&◌, ◌||◌, ltb, if◌then◌else◌, Bytes}
use open_ipc_mobile_gs.Prelude.Int.{ℤ, pos, ltb_ℤ, ◌-ℤ◌}
use open_ipc_mobile_gs.Wfb.Link.{LinkSnapshot}

-- `round` is `std::lround`, and `truncate` the cast to `int`.
pub record Double (D : Type 0) : Type 0 where
  pub of_int : ℤ → D
  pub add : D → D → D
  pub sub : D → D → D
  pub mul : D → D → D
  pub div : D → D → D
  pub pow : D → D → D
  pub lt : D → D → Bool
  pub eq : D → D → Bool
  pub truncate : D → ℤ
  pub round : D → ℤ

pub record AlinkConfig (D : Type 0) : Type 0 where
  pub enabled : Bool
  pub udp_host : Bytes
  pub udp_port : ℤ
  pub interval_ms : ℤ
  pub snr_weight : D
  pub rssi_weight : D
  pub snr_min : D
  pub snr_max : D
  pub rssi_min : D
  pub rssi_max : D
  pub allow_idr : Bool
  pub idr_max_messages : ℤ
  pub allow_penalty : Bool
  pub allow_fec_increase : Bool
  pub min_noise : D
  pub max_noise : D
  pub deduction_exponent : D
  pub min_noise_for_fec_change : D
  pub noise_for_max_fec_change : D
  pub kalman_estimate : D
  pub kalman_error_estimate : D
  pub process_variance : D
  pub measurement_variance : D

-- The two members that the Kalman filter keeps.
pub record Kalman (D : Type 0) : Type 0 where
  pub estimate : D
  pub error_estimate : D

module _ {D : Type 0} (double : Double D) where
  open double use {of_int, add, sub, mul, div, pow, lt, eq, truncate, round}

  abbrev pub whole : ℕ → D
  whole n = of_int (pos n)

  -- `std::max` and `std::min`.
  abbrev pub max_of : D → D → D
  max_of a b = if lt a b then b else a

  abbrev pub min_of : D → D → D
  min_of a b = if lt b a then b else a

  -- `a <= b` of values that are numbers, by `<` and `==`.
  abbrev pub le : D → D → Bool
  le a b = lt a b || eq a b

  unfoldable pub clamp01 : D → D
  clamp01 v = max_of (whole 0) (min_of (whole 1) v)

  unfoldable pub kalman_update : AlinkConfig D → Kalman D → D → Kalman D
  kalman_update config k measurement =
      let predicted_error = add k.error_estimate config.process_variance in
      let gain = div predicted_error (add predicted_error config.measurement_variance) in
      record {
        estimate = add k.estimate (mul gain (sub measurement k.estimate));
        error_estimate = mul (sub (whole 1) gain) predicted_error;
      }

  unfoldable pub adjust_fec_recovered : D → ℤ → ℤ → D
  adjust_fec_recovered fec_recovered fec_k fec_n =
      let redundancy = of_int (fec_n -ℤ fec_k) in
      let weight = div (whole 6) (add (whole 1) redundancy) in
      if ltb_ℤ fec_k (pos 0) || not (ltb_ℤ (pos 0) fec_n)
      then fec_recovered
      else mul fec_recovered weight

  -- What a snapshot does to the filter: the error ratio, the filtered noise and the filter.
  pub record Noise : Type 0 where
    pub error_ratio : D
    pub filtered_noise : D
    pub kalman : Kalman D

  unfoldable pub measure : AlinkConfig D → Kalman D → LinkSnapshot → Noise
  unfolding kalman_update adjust_fec_recovered
  measure config k s =
      let all_packets = whole s.packets_all in
      let adjusted = adjust_fec_recovered (whole s.packets_fec_recovered) s.fec_k s.fec_n in
      let ratio =
        div (add (mul (whole 5) (whole s.packets_lost)) adjusted)
          (div all_packets (whole s.num_antennas)) in
      let k' = kalman_update config k ratio in
      if lt (whole 0) all_packets && ltb 0 s.num_antennas
      then record { error_ratio = ratio; filtered_noise = k'.estimate; kalman = k' }
      else record { error_ratio = whole 0; filtered_noise = whole 0; kalman = k }

  -- A figure within its span, between 0 and 1.
  unfoldable pub normalized : ℤ → D → D → D
  unfolding clamp01
  normalized figure least greatest =
      let span = sub greatest least in
      if not (eq span (whole 0)) then clamp01 (div (sub (of_int figure) least) span) else whole 0

  unfoldable pub raw_score : AlinkConfig D → LinkSnapshot → D
  unfolding normalized
  raw_score config s =
      let snr = normalized s.best_snr config.snr_min config.snr_max in
      let rssi = normalized s.best_rssi config.rssi_min config.rssi_max in
      add (whole 1000)
        (mul (add (mul config.snr_weight snr) (mul config.rssi_weight rssi)) (whole 1000))

  unfoldable pub deduction_ratio : AlinkConfig D → D → D
  deduction_ratio config filtered_noise =
      let span = sub config.max_noise config.min_noise in
      let t =
        if not (eq span (whole 0))
        then div (sub filtered_noise config.min_noise) span
        else whole 1 in
      if lt filtered_noise config.min_noise
      then whole 0
      else min_of (pow t config.deduction_exponent) (whole 1)

  unfoldable pub final_score : AlinkConfig D → D → D → D
  unfolding deduction_ratio
  final_score config raw filtered_noise =
      if config.allow_penalty
      then add (whole 1000)
          (mul (sub raw (whole 1000)) (sub (whole 1) (deduction_ratio config filtered_noise)))
      else raw

  unfoldable pub fec_change_of : AlinkConfig D → D → ℤ
  fec_change_of config filtered_noise =
      let span = sub config.max_noise config.min_noise_for_fec_change in
      let t =
        if not (eq span (whole 0))
        then div (sub filtered_noise config.min_noise_for_fec_change) span
        else whole 0 in
      if not config.allow_fec_increase || le filtered_noise config.min_noise_for_fec_change
      then pos 0
      else if le config.noise_for_max_fec_change filtered_noise
      then pos 5
      else round (mul t (whole 5))
