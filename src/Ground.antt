-- ===== src/Ground.antt =====
-- `GroundStation` (gslib/src/main/cpp/ground_station.cpp, gslib/src/main/cpp/ground_station.h): the
-- state that ties the parts together. A packet source and wfb-ng's aggregator are interfaces.
pub mod Lifecycle
pub mod Payloads
pub mod Stats
pub mod Samples
mod Tests
use open_ipc_mobile_gs.Prelude.{
  ℕ, Bool, true, false, Option, none, some, List, [], ◌∷◌, ◌++◌, Bytes,
}
use open_ipc_mobile_gs.Prelude.Int.{ℤ, pos}
use open_ipc_mobile_gs.Wfb.Link.{LinkSnapshot, empty_snapshot}
use open_ipc_mobile_gs.Wfb.Frame.{uplink_frame}
use open_ipc_mobile_gs.Wfb.Receiver.{WfbReceiver}
use open_ipc_mobile_gs.Rtp.Header.{VideoCodec}
use open_ipc_mobile_gs.Rtp.Depacketizer.{RtpDepacketizer}
use open_ipc_mobile_gs.Rtp.Depacketizer as Rtp
use open_ipc_mobile_gs.Msp.Decoder.{MspOsdDecoder}
use open_ipc_mobile_gs.Msp.Decoder as Msp
use open_ipc_mobile_gs.Mavlink.Router.{
  MavlinkRouter, MavlinkEndpoint, initial_router, set_endpoints,
}
use open_ipc_mobile_gs.Alink.Scoring.{AlinkConfig}
use open_ipc_mobile_gs.Alink.Controller.{AlinkController, new_controller}

pub data SourceKind : Type 0 where
  devourer udp pcap_file : SourceKind

pub data Bandwidth : Type 0 where
  bw5 bw10 bw20 bw40 bw80 : Bandwidth

pub record RadioConfig : Type 0 where
  pub channel : ℤ
  pub bandwidth : Bandwidth
  pub link_id : ℕ
  pub key_path : Bytes
  pub ldpc : Bool
  pub stbc : Bool

pub record UdpSourceConfig : Type 0 where
  pub bind_addr : Bytes
  pub video_port : ℤ

pub record GsConfig (D : Type 0) : Type 0 where
  pub source : SourceKind
  pub radio : RadioConfig
  pub udp : UdpSourceConfig
  pub alink : AlinkConfig D
  pub pcap_path : Bytes
  pub video_mirror_host : Bytes
  pub video_mirror_port : ℤ

-- `RadioPort`
abbrev pub port_video : ℕ
port_video = 0x00

abbrev pub port_mavlink_rx : ℕ
port_mavlink_rx = 0x10

abbrev pub port_tunnel_rx : ℕ
port_tunnel_rx = 0x20

abbrev pub port_mavlink_tx : ℕ
port_mavlink_tx = 0x90

abbrev pub port_tunnel_tx : ℕ
port_tunnel_tx = 0xa0

-- `PacketSource` and the two functions that make one. `source_start`
-- returns none, or the error text.
pub record PacketSource (S : Type 0) : Type 0 where
  pub make_devourer : RadioConfig → ℤ → S
  pub make_udp : UdpSourceConfig → S
  pub source_start : S → S × Option Bytes
  pub source_stop : S → S
  pub source_set_channel : S → ℤ → Bandwidth → S × Bool
  pub transmit : S → Bytes → S

-- `mirror_fd` is none where the code has -1. The logs are of the sources stopped, of the sockets
-- opened and closed for the mirror, of what is sent to it, of the frames given to `Transmit`, of the texts for `on_status` and
-- of the snapshots for `on_stats`.
pub record GroundStation (D : Type 0) (A : Type 0) (S : Type 0) : Type 0 where
  pub config : GsConfig D
  pub source : Option S
  pub receiver : Option (WfbReceiver A)
  pub depacketizer : RtpDepacketizer
  pub osd : MspOsdDecoder
  pub mavlink : MavlinkRouter
  pub alink : Option (AlinkController D)
  pub stats : LinkSnapshot
  pub stopped : List S
  pub mirror_fd : Option ℕ
  pub running : Bool
  pub last_error : Bytes
  pub opened : List ℕ
  pub closed : List ℕ
  pub mirrored : List Bytes
  pub transmitted : List Bytes
  pub statuses : List Bytes
  pub published : List LinkSnapshot

-- A controller that is there keeps its filter and its keyframe request.
abbrev pub configure : {D : Type 0} → Option (AlinkController D) → AlinkConfig D → AlinkController D
configure none config = new_controller config
configure (some c) config = record c { config = config }

module _ {D : Type 0} {A : Type 0} {S : Type 0} where
  -- A station that was never started; `codec` is the depacketiser's default.
  abbrev pub new_station : GsConfig D → VideoCodec → GroundStation D A S
  new_station config codec = record {
    config = config;
    source = none;
    receiver = none;
    depacketizer = Rtp.initial codec false;
    osd = Msp.initial false;
    mavlink = initial_router;
    alink = none;
    stats = empty_snapshot;
    stopped = [];
    mirror_fd = none;
    running = false;
    last_error = [];
    opened = [];
    closed = [];
    mirrored = [];
    transmitted = [];
    statuses = [];
    published = [];
  }

  unfoldable pub set_error : GroundStation D A S → Bytes → GroundStation D A S
  set_error g message = record g { last_error = message; statuses = g.statuses ++ (message ∷ []) }

  -- `SendUplink`
  abbrev pub send_by_source :
      PacketSource S → SourceKind → GroundStation D A S → S → ℕ → Bytes → GroundStation D A S
  send_by_source sources devourer g s port bytes =
      let frame = uplink_frame g.config.radio.link_id port bytes in
      record g {
        source = some (sources.transmit s frame);
        transmitted = g.transmitted ++ (frame ∷ []);
      }
  send_by_source sources udp g s port bytes = g
  send_by_source sources pcap_file g s port bytes = g

  unfoldable pub send_uplink :
      PacketSource S → GroundStation D A S → ℕ → Bytes → GroundStation D A S
  send_uplink sources g port bytes = elim g.source [
    | none ↦ g
    | some s ↦ send_by_source sources g.config.source g s port bytes
  ]

  unfoldable pub set_mavlink_endpoints :
      GroundStation D A S → List MavlinkEndpoint → GroundStation D A S
  set_mavlink_endpoints g endpoints = record g { mavlink = set_endpoints g.mavlink endpoints }

  unfoldable pub set_alink_config : GroundStation D A S → AlinkConfig D → GroundStation D A S
  set_alink_config g config =
      let kept = record (g.config) { alink = config } in
      elim config.enabled [
        | true ↦ record g { config = kept; alink = some (configure g.alink config) }
        | false ↦ record g { config = kept; alink = none }
      ]

  unfoldable pub set_video_codec : GroundStation D A S → VideoCodec → GroundStation D A S
  set_video_codec g codec = record g { depacketizer = Rtp.set_codec g.depacketizer codec }

  unfoldable pub set_channel :
      PacketSource S → GroundStation D A S → ℤ → Bandwidth → GroundStation D A S × Bool
  set_channel sources g channel bandwidth = elim g.source [
    | none ↦ (g, false)
    | some s ↦
        let answer = sources.source_set_channel s channel bandwidth in
        let radio = record (g.config.radio) { channel = channel; bandwidth = bandwidth } in
        (
          record g { config = record (g.config) { radio = radio }; source = some answer.0 },
          answer.1,
        )
  ]
