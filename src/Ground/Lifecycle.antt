-- ===== src/Ground/Lifecycle.antt =====
-- `GroundStation::Start` and `GroundStation::Stop` (gslib/src/main/cpp/ground_station.cpp).
pub mod Mirror
pub mod Usage
use open_ipc_mobile_gs.Prelude.{
  ℕ, Bool, true, false, not, ◌&&◌, Option, none, some, List, [], ◌∷◌, ◌++◌, Bytes, map,
  if◌then◌else◌,
}
use mathlib.Core.Option as Option
use open_ipc_mobile_gs.Prelude.Int.{ℤ, pos, ltb_ℤ}
use open_ipc_mobile_gs.Wfb.Receiver.{Aggregator, WfbReceiver, new_receiver, add_stream}
use open_ipc_mobile_gs.Rtp.Depacketizer.{RtpDepacketizer}
use open_ipc_mobile_gs.Msp.Decoder.{MspOsdDecoder}
use open_ipc_mobile_gs.Mavlink.Router.{MavlinkRouter, set_uplink_callback}
use open_ipc_mobile_gs.Mavlink.Router as Router
use open_ipc_mobile_gs.Mavlink.Router.Opening.{same_bytes}
use open_ipc_mobile_gs.Alink.Scoring.{AlinkConfig}
use open_ipc_mobile_gs.Alink.Controller.{AlinkController, new_controller}
use open_ipc_mobile_gs.Ground.{
  SourceKind, devourer, udp, pcap_file, RadioConfig, GsConfig, PacketSource, GroundStation,
  port_video, port_mavlink_rx, port_tunnel_rx, set_error,
}

-- What the system answers while the station starts: the two ends of the router's pipe, the mirror's
-- socket, `inet_pton` on its host, its `connect`, and the text of the exception if the key file can
-- not be read.
pub record StartCalls : Type 0 where
  pub pipe_ends : Option (ℕ × ℕ)
  pub mirror_socket : Option ℕ
  pub inet_pton : Bytes → Option ℕ
  pub connect_ok : Bool
  pub key_error : Bytes

abbrev pub option_list {ℓ} : {B : Type ℓ} → Option B → List B
option_list none = []
option_list (some b) = b ∷ []

abbrev pub is_some {ℓ} : {B : Type ℓ} → Option B → Bool
is_some none = false
is_some (some b) = true

-- "could not load gs.key: "
abbrev pub key_message : Bytes
key_message =
    b'c' ∷ b'o' ∷ b'u' ∷ b'l' ∷ b'd' ∷ 32 ∷ b'n' ∷ b'o' ∷ b't' ∷ 32 ∷ b'l' ∷ b'o' ∷ b'a' ∷ b'd' ∷ 32
    ∷ b'g' ∷ b's' ∷ b'.' ∷ b'k' ∷ b'e' ∷ b'y' ∷ b':' ∷ 32 ∷ []

-- "ground station running"
abbrev pub running_message : Bytes
running_message =
    b'g' ∷ b'r' ∷ b'o' ∷ b'u' ∷ b'n' ∷ b'd' ∷ 32 ∷ b's' ∷ b't' ∷ b'a' ∷ b't' ∷ b'i' ∷ b'o' ∷ b'n'
    ∷ 32 ∷ b'r' ∷ b'u' ∷ b'n' ∷ b'n' ∷ b'i' ∷ b'n' ∷ b'g' ∷ []

-- The receiver with its three streams, or none if one of them throws.
unfoldable pub make_receiver : {A : Type 0} → Aggregator A → RadioConfig → Option (WfbReceiver A)
make_receiver agg radio =
    Option.bind (add_stream agg (new_receiver radio.link_id radio.key_path) port_video)
      (λ r. Option.bind (add_stream agg r port_mavlink_rx) (λ s. add_stream agg s port_tunnel_rx))

module _ {D : Type 0} {A : Type 0} {S : Type 0} where
  -- The configuration, the callbacks and the router.
  unfoldable pub connect_parts : StartCalls → GsConfig D → GroundStation D A S → GroundStation D A S
  connect_parts calls config g = record g {
    config = config;
    depacketizer = record (g.depacketizer) { callback_set = true };
    osd = record (g.osd) { callback_set = true };
    mavlink = (Router.start calls.pipe_ends (set_uplink_callback g.mavlink)).0;
  }

  abbrev pub connect_mirror : Bool → GroundStation D A S → Option ℕ → GroundStation D A S
  connect_mirror ready g none = record g { mirror_fd = none }
  connect_mirror true g (some fd) = record g { mirror_fd = some fd; opened = g.opened ++ (fd ∷ []) }
  connect_mirror false g (some fd) = record g {
    mirror_fd = none;
    opened = g.opened ++ (fd ∷ []);
    closed = g.closed ++ (fd ∷ []);
  }

  -- The socket of the mirror, closed again if its address does not serve.
  unfoldable pub open_mirror : StartCalls → GroundStation D A S → GroundStation D A S
  open_mirror calls g =
      let wanted =
        not (same_bytes g.config.video_mirror_host [])
        && ltb_ℤ (pos 0) g.config.video_mirror_port in
      let ready = is_some (calls.inet_pton g.config.video_mirror_host) && calls.connect_ok in
      if not wanted then g else connect_mirror ready g calls.mirror_socket

  unfoldable pub create_alink : GroundStation D A S → GroundStation D A S
  create_alink g =
      if g.config.alink.enabled
      then record g { alink = some (new_controller g.config.alink) }
      else g

  module _ (agg : Aggregator A) (sources : PacketSource S) where
    abbrev pub make_radio :
        StartCalls → ℤ → GroundStation D A S → Option (WfbReceiver A) → GroundStation D A S × Bool
    make_radio calls usb_fd g none = (
      record (set_error g (key_message ++ calls.key_error)) {
        receiver = none;
        mavlink = Router.stop g.mavlink;
      },
      false,
    )
    make_radio calls usb_fd g (some r) = (
      record g { receiver = some r; source = some (sources.make_devourer g.config.radio usb_fd) },
      true,
    )

    -- The switch over the kind of source, and whether it goes on.
    unfoldable pub make_source :
        StartCalls → ℤ → SourceKind → GroundStation D A S → GroundStation D A S × Bool
    unfolding make_receiver
    make_source calls usb_fd udp g =
        (record g { source = some (sources.make_udp g.config.udp) }, true)
    make_source calls usb_fd devourer g =
        make_radio calls usb_fd g (make_receiver agg g.config.radio)
    make_source calls usb_fd pcap_file g =
        make_radio calls usb_fd g (make_receiver agg g.config.radio)

    abbrev pub launch : GroundStation D A S → S × Option Bytes → GroundStation D A S × Bool
    launch g (s, none) = (
      record g { source = some s; running = true; statuses = g.statuses ++ (running_message ∷ []) },
      true,
    )
    launch g (s, some error) = (
      record (set_error g error) {
        source = none;
        receiver = none;
        mavlink = Router.stop g.mavlink;
      },
      false,
    )

    abbrev pub start_source : GroundStation D A S × Bool → GroundStation D A S × Bool
    start_source (g, false) = (g, false)
    start_source (g, true) = elim g.source [
      | none ↦ (g, false)
      | some s ↦ launch g (sources.source_start s)
    ]

    -- `Start`, and the value it returns.
    unfoldable pub start_station :
        StartCalls → GsConfig D → ℤ → GroundStation D A S → GroundStation D A S × Bool
    unfolding connect_parts open_mirror create_alink make_source
    start_station calls config usb_fd g =
        let prepared = create_alink (open_mirror calls (connect_parts calls config g)) in
        if g.running
        then (g, true)
        else start_source (make_source calls usb_fd config.source prepared)

    -- `Stop`, with the thread joined.
    unfoldable pub stop_station : GroundStation D A S → GroundStation D A S
    stop_station g = if not g.running then g else record g {
      running = false;
      source = none;
      stopped = g.stopped ++ map sources.source_stop (option_list g.source);
      mavlink = Router.stop g.mavlink;
      receiver = none;
      alink = none;
      mirror_fd = none;
      closed = g.closed ++ Router.fd_list g.mirror_fd;
    }
