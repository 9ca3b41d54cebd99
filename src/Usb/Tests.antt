-- ===== src/Usb/Tests.antt =====
-- Sessions of the USB source on concrete answers.
use open_ipc_mobile_gs.Prelude.{◌≡◌, refl, true, false, some, List, [], ◌∷◌}
use open_ipc_mobile_gs.Prelude.Int.{pos, negsuc}
use open_ipc_mobile_gs.Ground.{RadioConfig, bw20, bw40}
use open_ipc_mobile_gs.Usb.{make_devourer_source, UsbCalls, claimed, usb_start, usb_stop, rssi_of}
use open_ipc_mobile_gs.Usb.Session.{
  Work, packet_came, channel_set, frame_sent, do_all, Fair, Released, usb_stop-usb_start,
}

-- A weak signal is cut off at the least value of a signed byte.
cut_rssi : rssi_of 200 ≡ negsuc 127
unfolding rssi_of
cut_rssi = refl

abbrev radio_config : RadioConfig
radio_config = record {
  channel = pos 161;
  bandwidth = bw20;
  link_id = 7669206;
  key_path = [];
  ldpc = true;
  stbc = true;
}

-- An adapter whose bring-up throws.
abbrev throwing : UsbCalls
throwing = record {
  option_ok = true;
  context = some 1;
  handle = some 2;
  claim = claimed;
  chip_known = true;
  bring_up_ok = false;
}

abbrev some_work : List Work
some_work =
    packet_came (record {
      bytes = 8 ∷ 1 ∷ [];
      rssi_a = 60;
      rssi_b = 70;
      snr_a = pos 20;
      snr_b = pos 21;
      data_rate = 4;
      bw = 0;
    })
    ∷ channel_set true (pos 149) bw40
    ∷ frame_sent true (1 ∷ [])
    ∷ []

usb_stop-usb_start_example :
    Fair (usb_start throwing (make_devourer_source radio_config (pos 42)))
    × Released (
        usb_stop
          (do_all (usb_start throwing (make_devourer_source radio_config (pos 42))).0 some_work))
usb_stop-usb_start_example = usb_stop-usb_start throwing radio_config (pos 42) some_work
