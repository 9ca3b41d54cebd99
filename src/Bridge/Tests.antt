-- ===== src/Bridge/Tests.antt =====
-- The bridge on concrete values.
use open_ipc_mobile_gs.Prelude.{◌≡◌, refl, true, false, none, some, List, [], ◌∷◌}
use open_ipc_mobile_gs.Prelude.Int.{ℤ, pos, negsuc}
use open_ipc_mobile_gs.Rtp.Header.{h264}
use open_ipc_mobile_gs.Mavlink.Router.{udp_out, tcp_server}
use open_ipc_mobile_gs.Wfb.Receiver.Samples.{passing}
use open_ipc_mobile_gs.Ground.{new_station, bw20, bw40}
use open_ipc_mobile_gs.Ground.Lifecycle.{StartCalls}
use open_ipc_mobile_gs.Ground.Samples.{numbered, mirrored_config, Station}
use open_ipc_mobile_gs.Bridge.{
  StartArguments, native_create, native_destroy, to_bandwidth, to_endpoint_kind, to_endpoints,
  u32_of,
}
use open_ipc_mobile_gs.Bridge.References.{
  NativeCall, start_call, stop_call, channel_call, codec_call, call_all,
  native_destroy-native_create,
}

-- A width that is none of the five counts as 20 MHz.
odd_bandwidth : (to_bandwidth (pos 7) ≡ bw20) × (to_bandwidth (pos 40) ≡ bw40)
unfolding to_bandwidth
odd_bandwidth = (refl, refl)

negative_link : u32_of (negsuc 0) ≡ 4294967295
negative_link = refl

two_endpoints :
    to_endpoints
      (pos 2 ∷ pos 9 ∷ [])
      ((1 ∷ []) ∷ [] ∷ [])
      (pos 5760 ∷ pos 14550 ∷ [])
      (true ∷ false ∷ [])
    ≡ record {
      kind = tcp_server;
      host = 1 ∷ [];
      port = pos 5760;
      enabled = true;
      allow_uplink = true;
    }
      ∷ record { kind = udp_out; host = []; port = pos 14550; enabled = true; allow_uplink = false }
      ∷ []
unfolding to_endpoints to_endpoint_kind
two_endpoints = refl

abbrev arguments : StartArguments
arguments = record {
  source_kind = pos 0;
  channel = pos 161;
  bandwidth = pos 20;
  link_id = pos 7669206;
  key_path = [];
  udp_bind = [];
  udp_port = pos 5600;
  mirror_host = [];
  mirror_port = pos 0;
  usb_fd = pos 5;
}

abbrev start_calls : StartCalls
start_calls = record {
  pipe_ends = some (3, 4);
  mirror_socket = none;
  inet_pton = λ host. none;
  connect_ok = false;
  key_error = [];
}

abbrev station : Station
station = new_station mirrored_config h264

abbrev uses : List (NativeCall ℤ)
uses =
    start_call start_calls mirrored_config arguments 1
    ∷ codec_call (pos 2)
    ∷ stop_call
    ∷ start_call start_calls mirrored_config arguments 2
    ∷ channel_call (pos 149) (pos 40)
    ∷ []

native_destroy-native_create_example :
    let s =
      native_destroy passing numbered (call_all passing numbered (native_create station) uses) in
    (s.station.running ≡ false) × (s.listener ≡ none) × (s.created ≡ s.deleted)
native_destroy-native_create_example = native_destroy-native_create passing numbered station uses
