-- ===== src/Bridge.antt =====
-- The bridge to the application (gslib/src/main/cpp/jni_bridge.cpp): what it makes of the values that
-- Java hands it, and the global reference that a session keeps to its listener.
pub mod References
mod Tests
use open_ipc_mobile_gs.Prelude.{
  ℕ, ◌+◌, ◌-◌, ◌*◌, ◌%◌, Bool, true, false, Option, none, some, List, [], ◌∷◌, ◌++◌, map,
  if◌then◌else◌, ◌==◌, Bytes, u32_mod,
}
use open_ipc_mobile_gs.Prelude.Int.{ℤ, pos, negsuc}
use open_ipc_mobile_gs.Prelude.Signed.{signed}
use open_ipc_mobile_gs.Rtp.Header.{VideoCodec, unknown, h264, h265}
use open_ipc_mobile_gs.Msp.Canvas.{OsdCell, OsdFrame}
use open_ipc_mobile_gs.Mavlink.Router.{
  Kind, MavlinkEndpoint, udp_out, udp_server, tcp_server, fd_list,
}
use open_ipc_mobile_gs.Mavlink.Telemetry.{Float, TelemetryState}
use open_ipc_mobile_gs.Wfb.Link.{LinkSnapshot}
use open_ipc_mobile_gs.Wfb.Receiver.{Aggregator}
use open_ipc_mobile_gs.Alink.Scoring.{AlinkConfig}
use open_ipc_mobile_gs.Ground.{
  SourceKind, devourer, udp, Bandwidth, bw5, bw10, bw20, bw40, bw80, GsConfig, PacketSource,
  GroundStation, set_mavlink_endpoints, set_alink_config, set_video_codec, set_channel,
}
use open_ipc_mobile_gs.Ground.Lifecycle.{StartCalls, start_station, stop_station}

unfoldable pub to_bandwidth : ℤ → Bandwidth
to_bandwidth (pos n) =
    if n == 5
    then bw5
    else if n == 10
    then bw10
    else if n == 40
    then bw40
    else if n == 80
    then bw80
    else bw20
to_bandwidth (negsuc n) = bw20

abbrev pub to_source_kind : ℤ → SourceKind
to_source_kind (pos n) = if n == 1 then udp else devourer
to_source_kind (negsuc n) = devourer

unfoldable pub to_video_codec : ℤ → VideoCodec
to_video_codec (pos n) = if n == 1 then h264 else if n == 2 then h265 else unknown
to_video_codec (negsuc n) = unknown

unfoldable pub to_endpoint_kind : ℤ → Kind
to_endpoint_kind (pos n) = if n == 1 then udp_server else if n == 2 then tcp_server else udp_out
to_endpoint_kind (negsuc n) = udp_out

-- `static_cast<uint32_t>`
abbrev pub u32_of : ℤ → ℕ
u32_of (pos n) = n % u32_mod
u32_of (negsuc n) = u32_mod - 1 - n % u32_mod

-- The parallel arrays, which have the same length.
unfoldable pub to_endpoints : List ℤ → List Bytes → List ℤ → List Bool → List MavlinkEndpoint
unfolding to_endpoint_kind
to_endpoints (k ∷ ks) (h ∷ hs) (p ∷ ps) (u ∷ us) =
    record { kind = to_endpoint_kind k; host = h; port = p; enabled = true; allow_uplink = u }
    ∷ to_endpoints ks hs ps us
to_endpoints _ _ _ _ = []

-- What `nativeStart` is given, the strings read.
pub record StartArguments : Type 0 where
  pub source_kind : ℤ
  pub channel : ℤ
  pub bandwidth : ℤ
  pub link_id : ℤ
  pub key_path : Bytes
  pub udp_bind : Bytes
  pub udp_port : ℤ
  pub mirror_host : Bytes
  pub mirror_port : ℤ
  pub usb_fd : ℤ

-- What `nativeSetAlink` is given.
pub record AlinkArguments (D : Type 0) : Type 0 where
  pub enabled : Bool
  pub host : Bytes
  pub port : ℤ
  pub interval_ms : ℤ
  pub snr_weight : D
  pub rssi_weight : D
  pub allow_idr : Bool
  pub allow_penalty : Bool
  pub allow_fec_increase : Bool

-- `listener` is none where the code has a null reference; the logs are of the global references
-- created and deleted.
pub record Session (D : Type 0) (A : Type 0) (S : Type 0) : Type 0 where
  pub station : GroundStation D A S
  pub listener : Option ℕ
  pub created : List ℕ
  pub deleted : List ℕ

module _ {D : Type 0} where
  -- The fields that the arguments set, over the defaults.
  unfoldable pub to_config : GsConfig D → StartArguments → GsConfig D
  unfolding to_bandwidth
  to_config defaults a = record defaults {
    source = to_source_kind a.source_kind;
    radio = record (defaults.radio) {
      channel = a.channel;
      bandwidth = to_bandwidth a.bandwidth;
      link_id = u32_of a.link_id;
      key_path = a.key_path;
    };
    udp = record { bind_addr = a.udp_bind; video_port = a.udp_port };
    video_mirror_host = a.mirror_host;
    video_mirror_port = a.mirror_port;
  }

  unfoldable pub to_alink_config : AlinkConfig D → AlinkArguments D → AlinkConfig D
  to_alink_config defaults a = record defaults {
    enabled = a.enabled;
    udp_host = a.host;
    udp_port = a.port;
    interval_ms = a.interval_ms;
    snr_weight = a.snr_weight;
    rssi_weight = a.rssi_weight;
    allow_idr = a.allow_idr;
    allow_penalty = a.allow_penalty;
    allow_fec_increase = a.allow_fec_increase;
  }

-- `? 1 : 0`
abbrev pub flag : Bool → ℤ
flag true = pos 1
flag false = pos 0

-- `static_cast<jint>` of a `uint32_t`.
abbrev pub to_jint : ℕ → ℤ
to_jint n = signed 2147483648 n

-- The two arrays of `on_stats`, in the order of their index constants.
unfoldable pub stat_ints : {F : Type 0} → LinkSnapshot → TelemetryState F → List ℤ
stat_ints s t =
    s.best_rssi
    ∷ s.best_snr
    ∷ to_jint s.packets_all
    ∷ to_jint s.packets_lost
    ∷ to_jint s.packets_fec_recovered
    ∷ to_jint s.packets_bad
    ∷ to_jint s.packets_decrypt_err
    ∷ s.fec_k
    ∷ s.fec_n
    ∷ pos s.num_antennas
    ∷ flag s.session_established
    ∷ to_jint s.bytes_all
    ∷ flag t.armed
    ∷ pos t.gps_fix_type
    ∷ pos t.satellites
    ∷ []

unfoldable pub stat_floats : {F : Type 0} → Float F → TelemetryState F → List F
stat_floats float t =
    t.roll_rad
    ∷ t.pitch_rad
    ∷ t.yaw_rad
    ∷ float.quotient t.latitude_e7 10000000
    ∷ float.quotient t.longitude_e7 10000000
    ∷ float.quotient t.altitude_mm 1000
    ∷ float.quotient t.relative_altitude_mm 1000
    ∷ t.ground_speed_ms
    ∷ t.air_speed_ms
    ∷ t.climb_ms
    ∷ t.heading_deg
    ∷ float.quotient (pos t.throttle_pct) 1
    ∷ t.battery_voltage_v
    ∷ t.battery_current_a
    ∷ float.quotient t.battery_remaining_pct 1
    ∷ []

-- The two arrays of `on_osd_frame`.
unfoldable pub osd_arrays : OsdFrame → List ℕ × List ℕ
osd_arrays frame =
    (map (λ (c : OsdCell). c.glyph) frame.cells, map (λ (c : OsdCell). c.attributes) frame.cells)

module _ {D : Type 0} {A : Type 0} {S : Type 0} where
  abbrev pub native_create : GroundStation D A S → Session D A S
  native_create station = record { station = station; listener = none; created = []; deleted = [] }

  -- A handle is none where it is null; `or_else` is what the call returns then.
  abbrev pub on_handle {ℓ} :
      {R : Type ℓ}
      → R
      → (Session D A S → Session D A S × R)
      → Option (Session D A S)
      → Option (Session D A S) × R
  on_handle or_else f none = (none, or_else)
  on_handle or_else f (some s) = let answer = f s in (some answer.0, answer.1)

  module _ (agg : Aggregator A) (sources : PacketSource S) where
    -- `nativeStart`, with the global reference that Java gives to the listener.
    unfoldable pub native_start :
        StartCalls → GsConfig D → StartArguments → ℕ → Session D A S → Session D A S × Bool
    unfolding to_config
    native_start calls defaults a reference s =
        let started = start_station agg sources calls (to_config defaults a) a.usb_fd s.station in
        (
          record s {
            station = started.0;
            listener = some reference;
            created = s.created ++ (reference ∷ []);
            deleted = s.deleted ++ fd_list s.listener;
          },
          started.1,
        )

    unfoldable pub native_stop : Session D A S → Session D A S
    native_stop s = record s { station = stop_station agg sources s.station }

    -- `nativeDestroy`, before the session's memory is freed.
    unfoldable pub native_destroy : Session D A S → Session D A S
    native_destroy s = record s {
      station = stop_station agg sources s.station;
      listener = none;
      deleted = s.deleted ++ fd_list s.listener;
    }

    unfoldable pub native_set_channel : ℤ → ℤ → Session D A S → Session D A S × Bool
    unfolding to_bandwidth
    native_set_channel channel bandwidth s =
        let answer = set_channel sources s.station channel (to_bandwidth bandwidth) in
        (record s { station = answer.0 }, answer.1)

  unfoldable pub native_set_video_codec : ℤ → Session D A S → Session D A S
  unfolding to_video_codec
  native_set_video_codec codec s = record s {
    station = set_video_codec s.station (to_video_codec codec);
  }

  unfoldable pub native_set_mavlink_endpoints :
      List ℤ → List Bytes → List ℤ → List Bool → Session D A S → Session D A S
  unfolding to_endpoints
  native_set_mavlink_endpoints kinds hosts ports uplinks s = record s {
    station = set_mavlink_endpoints s.station (to_endpoints kinds hosts ports uplinks);
  }

  unfoldable pub native_set_alink : AlinkConfig D → AlinkArguments D → Session D A S → Session D A S
  unfolding to_alink_config
  native_set_alink defaults a s = record s {
    station = set_alink_config s.station (to_alink_config defaults a);
  }
