-- ===== src/Ground/Samples.antt =====
-- Sample values of the station for the tests.
use open_ipc_mobile_gs.Prelude.{ℕ, true, none, some, [], ◌∷◌, ◌==◌, if◌then◌else◌}
use open_ipc_mobile_gs.Prelude.Int.{ℤ, pos, pos_part}
use open_ipc_mobile_gs.Alink.Controller.Samples.{two_requests}
use open_ipc_mobile_gs.Ground.{PacketSource, GsConfig, GroundStation, devourer, bw20}

-- A source is a number: that of an adapter is its descriptor, and 0 does not start.
abbrev pub numbered : PacketSource ℕ
numbered = record {
  make_devourer = λ radio usb_fd. pos_part usb_fd;
  make_udp = λ config. 1;
  source_start = λ s. if s == 0 then (s, some (b'n' ∷ b'o' ∷ [])) else (s, none);
  source_stop = λ s. s;
  source_set_channel = λ s channel bandwidth. (s, true);
  transmit = λ s frame. s;
}

abbrev pub mirrored_config : GsConfig ℤ
mirrored_config = record {
  source = devourer;
  radio = record {
    channel = pos 161;
    bandwidth = bw20;
    link_id = 7669206;
    key_path = [];
    ldpc = true;
    stbc = true;
  };
  udp = record { bind_addr = []; video_port = pos 5600 };
  alink = two_requests;
  pcap_path = [];
  video_mirror_host = b'h' ∷ [];
  video_mirror_port = pos 5600;
}

abbrev pub Station : Type 0
Station = GroundStation ℤ ℕ ℕ
