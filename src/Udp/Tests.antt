-- ===== src/Udp/Tests.antt =====
-- Sessions of the UDP source on concrete answers.
use open_ipc_mobile_gs.Rtp.Depacketizer as Rtp
use open_ipc_mobile_gs.Prelude.{◌≡◌, refl, true, false, none, some, List, [], ◌∷◌, arith}
use open_ipc_mobile_gs.Prelude.Int.{pos}
use open_ipc_mobile_gs.Rtp.Header.{h264}
use open_ipc_mobile_gs.Ground.{UdpSourceConfig, new_station}
use open_ipc_mobile_gs.Ground.Payloads.{on_datagram}
use open_ipc_mobile_gs.Ground.Payloads.Dispatch.{each}
use open_ipc_mobile_gs.Ground.Samples.{mirrored_config, Station}
use open_ipc_mobile_gs.Udp.{
  UdpSource, make_udp_source, UdpCalls, Reception, not_ready, recv_failed, datagram, bind_socket,
  udp_start, udp_stop, udp_loop,
}
use open_ipc_mobile_gs.Udp.Session.{udp_stop-udp_start, udp_loop-depacketizer}

abbrev any_address : UdpSourceConfig
any_address = record { bind_addr = []; video_port = pos 5600 }

abbrev taken_port : UdpCalls
taken_port = record { socket_fd = some 9; inet_pton = λ host. none; bind_ok = false }

abbrev rounds : List Reception
rounds = datagram (0x80 ∷ 96 ∷ []) ∷ not_ready ∷ datagram (1 ∷ []) ∷ recv_failed ∷ []

-- A port that is taken: the socket is closed again, and the error names the port.
taken_port_error : (udp_start taken_port (make_udp_source any_address)).0.closed ≡ 9 ∷ []
unfolding udp_start bind_socket
taken_port_error = refl

udp_stop-udp_start_example :
    let s = udp_stop (udp_loop (udp_start taken_port (make_udp_source any_address)).0 rounds) in
    (s.running ≡ false) × (s.fd ≡ none) × (s.opened ≡ s.closed)
udp_stop-udp_start_example = udp_stop-udp_start any_address taken_port rounds

abbrev running_source : UdpSource
running_source = record (make_udp_source any_address) {
  fd = some 9;
  running = true;
  opened = 9 ∷ [];
}

abbrev station : Station
station = new_station mirrored_config h264

udp_loop-depacketizer_example :
    (each on_datagram station (udp_loop running_source rounds).delivered).depacketizer
    ≡ each (λ d b. (Rtp.push d b).0) station.depacketizer ((0x80 ∷ 96 ∷ []) ∷ (1 ∷ []) ∷ [])
udp_loop-depacketizer_example =
    udp_loop-depacketizer station running_source rounds refl refl (omega arith)
