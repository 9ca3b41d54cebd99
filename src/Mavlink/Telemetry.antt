-- ===== src/Mavlink/Telemetry.antt =====
-- `TelemetryDecoder` (core/src/mavlink/router.cpp): what the OSD is told of the aircraft. The type of
-- `float` and what the decoder does with it are parameters; the time is an argument.
pub mod Reports
pub mod Truncation
use open_ipc_mobile_gs.Prelude.{
  ℕ, ◌+◌, ◌-◌, ◌*◌, ◌/◌, ◌%◌, Bool, true, false, [], ◌∷◌, ltb, leb, ◌==◌, if◌then◌else◌, drop,
  Bytes, byte, bit_set,
}
use open_ipc_mobile_gs.Prelude.Int.{ℤ, pos, negsuc}
use open_ipc_mobile_gs.Prelude.Signed.{signed, le16, le32}
use open_ipc_mobile_gs.Mavlink.Framer.{MavlinkMessage, header_size}

-- `float`: the value of 4 bytes read as one, and an integer converted and divided by a constant.
pub record Float (F : Type 0) : Type 0 where
  pub of_bits : ℕ → F
  pub quotient : ℤ → ℕ → F

pub record TelemetryState (F : Type 0) : Type 0 where
  pub armed : Bool
  pub base_mode : ℕ
  pub custom_mode : ℕ
  pub system_status : ℕ
  pub mav_type : ℕ
  pub roll_rad : F
  pub pitch_rad : F
  pub yaw_rad : F
  pub latitude_e7 : ℤ
  pub longitude_e7 : ℤ
  pub altitude_mm : ℤ
  pub relative_altitude_mm : ℤ
  pub satellites : ℕ
  pub gps_fix_type : ℕ
  pub ground_speed_ms : F
  pub air_speed_ms : F
  pub climb_ms : F
  pub heading_deg : F
  pub throttle_pct : ℕ
  pub battery_voltage_v : F
  pub battery_current_a : F
  pub battery_remaining_pct : ℤ
  pub last_update_ms : ℕ
  pub valid : Bool

-- The messages that the switch over `msgid` tells apart.
pub data MessageKind : Type 0 where
  heartbeat sys_status attitude global_position_int gps_raw_int vfr_hud battery_status other :
      MessageKind

unfoldable pub kind_of : ℕ → MessageKind
kind_of msgid =
    if msgid == 0
    then heartbeat
    else if msgid == 1
    then sys_status
    else if msgid == 30
    then attitude
    else if msgid == 33
    then global_position_int
    else if msgid == 24
    then gps_raw_int
    else if msgid == 74
    then vfr_hud
    else if msgid == 147
    then battery_status
    else other

-- `ReadLe` at an offset.
abbrev pub read16 : Bytes → ℕ → ℕ
read16 p i = le16 (byte p i) (byte p (i + 1))

abbrev pub read32 : Bytes → ℕ → ℕ
read32 p i = le32 (byte p i) (byte p (i + 1)) (byte p (i + 2)) (byte p (i + 3))

abbrev pub read_i16 : Bytes → ℕ → ℤ
read_i16 p i = signed 32768 (read16 p i)

abbrev pub read_i32 : Bytes → ℕ → ℤ
read_i32 p i = signed 2147483648 (read32 p i)

-- The payload length that each case asks for; the last asks for nothing, since it does nothing.
abbrev pub least_payload : MessageKind → ℕ
least_payload heartbeat = 8
least_payload sys_status = 31
least_payload attitude = 16
least_payload global_position_int = 28
least_payload gps_raw_int = 30
least_payload vfr_hud = 20
least_payload battery_status = 36
least_payload other = 0

module _ {F : Type 0} (float : Float F) where
  -- The body of each case behind its length check, on what stands behind the header.
  unfoldable pub decode : MessageKind → TelemetryState F → Bytes → TelemetryState F
  decode heartbeat s p = record s {
    custom_mode = read32 p 0;
    mav_type = byte p 4;
    base_mode = byte p 6;
    system_status = byte p 7;
    armed = bit_set (byte p 6) 128;
  }
  decode sys_status s p = record s {
    battery_voltage_v = float.quotient (pos (read16 p 14)) 1000;
    battery_current_a = float.quotient (read_i16 p 16) 100;
    battery_remaining_pct = signed 128 (byte p 30);
  }
  decode attitude s p = record s {
    roll_rad = float.of_bits (read32 p 4);
    pitch_rad = float.of_bits (read32 p 8);
    yaw_rad = float.of_bits (read32 p 12);
  }
  decode global_position_int s p = record s {
    latitude_e7 = read_i32 p 4;
    longitude_e7 = read_i32 p 8;
    altitude_mm = read_i32 p 12;
    relative_altitude_mm = read_i32 p 16;
    heading_deg =
        if read16 p 26 == 65535 then s.heading_deg else float.quotient (pos (read16 p 26)) 100;
  }
  decode gps_raw_int s p = record s { gps_fix_type = byte p 28; satellites = byte p 29 }
  decode vfr_hud s p = record s {
    air_speed_ms = float.of_bits (read32 p 0);
    ground_speed_ms = float.of_bits (read32 p 4);
    climb_ms = float.of_bits (read32 p 12);
    throttle_pct = read16 p 18;
  }
  decode battery_status s p = record s {
    battery_voltage_v =
        if read16 p 5 == 65535 then s.battery_voltage_v else float.quotient (pos (read16 p 5)) 1000;
    battery_current_a = float.quotient (read_i16 p 25) 100;
    battery_remaining_pct = signed 128 (byte p 35);
  }
  decode other s p = s

  -- The switch, for a payload of that length.
  unfoldable pub consume_payload : ℕ → TelemetryState F → ℕ → ℕ → Bytes → TelemetryState F
  unfolding decode kind_of
  consume_payload now s msgid payload_len p =
      let s' = record s { valid = true; last_update_ms = now } in
      if leb (least_payload (kind_of msgid)) payload_len then decode (kind_of msgid) s' p else s'

  unfoldable pub consume : ℕ → TelemetryState F → MavlinkMessage → TelemetryState F
  unfolding consume_payload
  consume now s m =
      let header = header_size m.v2 in
      if ltb m.size (header + 2)
      then s
      else consume_payload now s m.msgid (m.size - header - 2) (drop header m.bytes)
