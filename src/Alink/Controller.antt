-- ===== src/Alink/Controller.antt =====
-- The controller of the adaptive link (core/src/alink/alink.cpp): what it keeps between snapshots,
-- `Update`, and a run of updates.
pub mod Keyframes
pub mod Messages
pub mod Bounds
pub mod Samples
mod Tests
use open_ipc_mobile_gs.Prelude.{
  ℕ, ◌+◌, Bool, true, false, ◌&&◌, List, [], ◌∷◌, ◌++◌, map, ltb, if◌then◌else◌, Bytes,
}
use open_ipc_mobile_gs.Prelude.Int.{ℤ, pos, ltb_ℤ, ◌-ℤ◌}
use open_ipc_mobile_gs.Wfb.Link.{LinkSnapshot}
use open_ipc_mobile_gs.Alink.Scoring.{
  Double, AlinkConfig, Kalman, whole, measure, raw_score, final_score, fec_change_of,
}
use open_ipc_mobile_gs.Alink.Message.{print_message}

pub record AlinkController (D : Type 0) : Type 0 where
  pub config : AlinkConfig D
  pub kalman : Kalman D
  pub idr_code : Bytes
  pub idr_remaining : ℤ

pub record AlinkResult (D : Type 0) : Type 0 where
  pub score : ℤ
  pub raw_score : D
  pub penalty : D
  pub fec_change : ℤ
  pub error_ratio : D
  pub filtered_noise : D
  pub message : Bytes
  pub idr_code : Bytes

-- What one update takes: the snapshot, the time, and the draws of the random number generator,
-- which are used only if a code is made.
pub record Occasion : Type 0 where
  pub snapshot : LinkSnapshot
  pub unix_time : ℕ
  pub draws : List ℕ

-- A controller with the result of an update.
pub record Updated (D : Type 0) : Type 0 where
  pub controller : AlinkController D
  pub result : AlinkResult D

-- `MakeIdrCode`, with what the distribution draws for each of the four letters.
abbrev pub make_idr_code : List ℕ → Bytes
make_idr_code draws = map (λ d. b'a' + d) draws

abbrev pub is_empty : Bytes → Bool
is_empty [] = true
is_empty (c ∷ cs) = false

module _ {D : Type 0} where
  abbrev pub new_controller : AlinkConfig D → AlinkController D
  new_controller config = record {
    config = config;
    kalman = record {
      estimate = config.kalman_estimate;
      error_estimate = config.kalman_error_estimate;
    };
    idr_code = [];
    idr_remaining = pos 0;
  }

  -- A loss makes a new code, if the configuration allows it.
  unfoldable pub request_idr : AlinkController D → Occasion → AlinkController D
  request_idr c o =
      if ltb 0 o.snapshot.packets_lost && c.config.allow_idr
      then record c { idr_code = make_idr_code o.draws; idr_remaining = c.config.idr_max_messages }
      else c

  -- The code in force goes behind the message, and one message less is left for it.
  unfoldable pub append_idr : AlinkController D → AlinkResult D → Updated D
  append_idr c r =
      let left = c.idr_remaining -ℤ pos 1 in
      let code = if ltb_ℤ (pos 0) left then c.idr_code else [] in
      elim (is_empty c.idr_code) [
        | true ↦ record { controller = c; result = r }
        | false ↦
            if ltb_ℤ (pos 0) c.idr_remaining
            then record {
              controller = record c { idr_code = code; idr_remaining = left };
              result = record r {
                message = r.message ++ (b':' ∷ c.idr_code);
                idr_code = c.idr_code;
              };
            }
            else record { controller = c; result = r }
      ]

module _ {D : Type 0} (double : Double D) where
  open double use {sub, truncate}

  -- The fields of the message behind the time.
  unfoldable pub fields_of : LinkSnapshot → ℤ → D → ℤ → List ℤ
  fields_of s score penalty fec_change =
      score
      ∷ score
      ∷ truncate (whole double s.packets_fec_recovered)
      ∷ truncate (whole double s.packets_lost)
      ∷ s.best_rssi
      ∷ s.best_snr
      ∷ pos s.num_antennas
      ∷ truncate penalty
      ∷ fec_change
      ∷ []

  -- `Update` up to the text of the message, with the filter left behind.
  unfoldable pub evaluate : AlinkController D → Occasion → Updated D
  unfolding measure raw_score final_score fec_change_of fields_of print_message
  evaluate c o =
      let m = measure double c.config c.kalman o.snapshot in
      let raw = raw_score double c.config o.snapshot in
      let final = final_score double c.config raw m.filtered_noise in
      let penalty = if c.config.allow_penalty then sub final raw else whole double 0 in
      let fec_change = fec_change_of double c.config m.filtered_noise in
      let fields = fields_of o.snapshot (truncate final) penalty fec_change in
      record {
        controller = record c { kalman = m.kalman };
        result = record {
          score = truncate final;
          raw_score = raw;
          penalty = penalty;
          fec_change = fec_change;
          error_ratio = m.error_ratio;
          filtered_noise = m.filtered_noise;
          message = print_message o.unix_time fields;
          idr_code = [];
        };
      }

  unfoldable pub update : AlinkController D → Occasion → Updated D
  unfolding request_idr evaluate append_idr
  update c o =
      let evaluated = evaluate (request_idr c o) o in
      append_idr evaluated.controller evaluated.result

  -- The results of updates in a row.
  abbrev pub update_all : AlinkController D → List Occasion → List (AlinkResult D)
  update_all c [] = []
  update_all c (o ∷ os) =
      let updated = update c o in updated.result ∷ update_all updated.controller os
