-- ===== src/Mavlink/Router/Display/Tests.antt =====
-- The telemetry of concrete messages, with fractions for `float`.
use open_ipc_mobile_gs.Prelude.{
  ℕ, ◌+◌, ◌≡◌, refl, inr, true, false, List, [], ◌∷◌, ◌++◌, arith, replicate, take, drop, Bytes,
  length,
}
use open_ipc_mobile_gs.Prelude.Int.{ℤ, pos, negsuc}
use open_ipc_mobile_gs.Mavlink.Framer.{MavlinkMessage}
use open_ipc_mobile_gs.Mavlink.Framer.Frames.{
  v1_frame, v2_frame, Item, noise, whole, wire, messages_of,
}
use open_ipc_mobile_gs.Mavlink.Telemetry.{Float, TelemetryState, consume}
use open_ipc_mobile_gs.Mavlink.Telemetry.Reports.{Report, heartbeat, position, unread, layout}
use open_ipc_mobile_gs.Mavlink.Telemetry.Truncation.{cut_hud, consume-cut_hud}
use open_ipc_mobile_gs.Mavlink.Router.{initial_router}
use open_ipc_mobile_gs.Mavlink.Router.Streams.{feed_all}
use open_ipc_mobile_gs.Mavlink.Router.Display.{consume_all, updated_all, feed_all-telemetry}

abbrev Fraction : Type 0
Fraction = ℤ × ℕ

abbrev fractions : Float Fraction
fractions = record { of_bits = λ n. (pos n, 1); quotient = λ z n. (z, n) }

abbrev nought : Fraction
nought = (pos 0, 1)

abbrev at_start : TelemetryState Fraction
at_start = record {
  armed = false;
  base_mode = 0;
  custom_mode = 0;
  system_status = 0;
  mav_type = 0;
  roll_rad = nought;
  pitch_rad = nought;
  yaw_rad = nought;
  latitude_e7 = pos 0;
  longitude_e7 = pos 0;
  altitude_mm = pos 0;
  relative_altitude_mm = pos 0;
  satellites = 0;
  gps_fix_type = 0;
  ground_speed_ms = nought;
  air_speed_ms = nought;
  climb_ms = nought;
  heading_deg = nought;
  throttle_pct = 0;
  battery_voltage_v = nought;
  battery_current_a = nought;
  battery_remaining_pct = negsuc 0;
  last_update_ms = 0;
  valid = false;
}

abbrev armed_copter : Report
armed_copter = heartbeat 5 2 3 209 4 3

abbrev south_west : Report
south_west =
    position 1000 (negsuc 339000000) (negsuc 584000000) (pos 120000) (negsuc 499) 0 0 0 27000

-- PARAM_VALUE, which the decoder does not read; the trailing zeros are cut off.
abbrev parameter : Report
parameter = unread 22 (7 ∷ [])

abbrev items : List Item
items =
    noise 0x11
    ∷ whole (v1_frame 0 1 1 0 (layout armed_copter) (0 ∷ 0 ∷ []))
    ∷ whole (v2_frame 0 0 2 1 1 22 0 0 (7 ∷ []) (0 ∷ 0 ∷ []))
    ∷ whole (v2_frame 0 0 1 1 1 33 0 0 (layout south_west) (0 ∷ 0 ∷ []))
    ∷ []

abbrev clock : ℕ → ℕ
clock n = 1000 + n

abbrev shown : TelemetryState Fraction
shown = consume_all fractions clock 0 at_start (messages_of items)

shown_fields :
    (shown.armed ≡ true)
    × (shown.latitude_e7 ≡ negsuc 339000000)
    × (shown.relative_altitude_mm ≡ negsuc 499)
    × (shown.heading_deg ≡ (pos 27000, 100))
    × (shown.last_update_ms ≡ 1002)
unfolding consume
shown_fields = (refl, refl, refl, refl, refl)

feed_all-telemetry_example :
    consume_all fractions clock 0 at_start
      (feed_all initial_router
        (take 9 (wire items) ∷ drop 9 (wire items) ∷ [])).downlink_framer.delivered
    ≡ updated_all fractions clock 0 at_start (armed_copter ∷ parameter ∷ south_west ∷ [])
feed_all-telemetry_example =
    feed_all-telemetry fractions clock initial_router
      (take 9 (wire items) ∷ drop 9 (wire items) ∷ []) items
      (armed_copter ∷ parameter ∷ south_west ∷ []) at_start refl refl (omega arith)
      ((refl, refl, omega arith), ((refl, refl, omega arith), ((refl, refl, omega arith), tt)))

-- A signed VFR_HUD of an aircraft on the ground, with the checksum 0x3412.
abbrev cut_message : MavlinkMessage
cut_message =
    let bytes : Bytes =
      0xfd
      ∷ 18
      ∷ 1
      ∷ 0
      ∷ 7
      ∷ 1
      ∷ 1
      ∷ 74
      ∷ 0
      ∷ 0
      ∷ (cut_hud 0 0 0 0 90 ++ (0x12 ∷ 0x34 ∷ replicate 13 9)) in
    record {
      bytes = bytes;
      size = length bytes;
      msgid = 74;
      system_id = 1;
      component_id = 1;
      v2 = true;
    }

consume-cut_hud_example : (consume fractions 5 at_start cut_message).throttle_pct ≡ 0x3412
consume-cut_hud_example =
    consume-cut_hud fractions 5 at_start cut_message
      (0xfd ∷ 18 ∷ 1 ∷ 0 ∷ 7 ∷ 1 ∷ 1 ∷ 74 ∷ 0 ∷ 0 ∷ []) 0 0 0 0 90 0x12 0x34 (replicate 13 9) refl
      refl refl refl refl (inr refl)
