-- ===== src/Alink/Controller/Tests.antt =====
-- Updates with whole numbers in place of floating point, on concrete snapshots.
use open_ipc_mobile_gs.Prelude.{◌≡◌, refl, List, [], ◌∷◌, arith, Bytes}
use open_ipc_mobile_gs.Prelude.Int.{ℤ, pos, negsuc, ◌+ℤ◌, ◌-ℤ◌, ◌*ℤ◌}
use open_ipc_mobile_gs.Wfb.Link.{empty_snapshot}
use open_ipc_mobile_gs.Alink.Controller.{Occasion, new_controller, fields_of, update}
use open_ipc_mobile_gs.Alink.Controller.Samples.{whole_numbers, two_requests}
use open_ipc_mobile_gs.Alink.Controller.Keyframes.{codes, message_keys, AllReadable, codes-loss}
use open_ipc_mobile_gs.Alink.Message.Size.{AllSigned}
use open_ipc_mobile_gs.Alink.Controller.Messages.{
  read_message, figures, keys_of, update-read_message,
}

abbrev azde : Bytes
azde = b'a' ∷ b'z' ∷ b'd' ∷ b'e' ∷ []

abbrev lossy : Occasion
lossy = record {
  snapshot = record empty_snapshot {
    packets_all = 100;
    packets_lost = 3;
    packets_fec_recovered = 7;
    best_rssi = negsuc 24;
    best_snr = pos 20;
    num_antennas = 2;
  };
  unix_time = 1700000000;
  draws = 0 ∷ 25 ∷ 3 ∷ 4 ∷ [];
}

abbrev quiet : Occasion
quiet = record lossy { snapshot = empty_snapshot }

lossy_message :
    (update whole_numbers (new_controller two_requests) lossy).result.message
    ≡ b'1' ∷ b'7' ∷ b'0' ∷ b'0' ∷ b'0' ∷ b'0' ∷ b'0' ∷ b'0' ∷ b'0' ∷ b'0' ∷ b':' ∷ b'2' ∷ b'0'
      ∷ b'0' ∷ b'0' ∷ b':' ∷ b'2' ∷ b'0' ∷ b'0' ∷ b'0' ∷ b':' ∷ b'7' ∷ b':' ∷ b'3' ∷ b':' ∷ b'-'
      ∷ b'2' ∷ b'5' ∷ b':' ∷ b'2' ∷ b'0' ∷ b':' ∷ b'2' ∷ b':' ∷ b'0' ∷ b':' ∷ b'0' ∷ b':' ∷ b'a'
      ∷ b'z' ∷ b'd' ∷ b'e' ∷ []
unfolding update ◌+ℤ◌ ◌*ℤ◌ ◌-ℤ◌
lossy_message = refl

lossy_readable :
    AllReadable whole_numbers (new_controller two_requests) (lossy ∷ quiet ∷ quiet ∷ quiet ∷ [])
unfolding update ◌+ℤ◌ ◌*ℤ◌ ◌-ℤ◌
lossy_readable = omega arith

codes-loss_example :
    (message_keys whole_numbers (new_controller two_requests) (lossy ∷ quiet ∷ quiet ∷ quiet ∷ [])
      ≡ (azde ∷ []) ∷ (azde ∷ []) ∷ [] ∷ [] ∷ [])
    × (codes whole_numbers (new_controller two_requests) (lossy ∷ quiet ∷ quiet ∷ quiet ∷ [])
        ≡ azde ∷ azde ∷ [] ∷ [] ∷ [])
codes-loss_example =
    codes-loss whole_numbers (new_controller two_requests) lossy (quiet ∷ quiet ∷ quiet ∷ []) refl
      (omega arith) refl (refl, (refl, (refl, tt))) tt lossy_readable

abbrev lossy_fields : List ℤ
lossy_fields = pos 2000 ∷ pos 2000 ∷ pos 7 ∷ pos 3 ∷ negsuc 24 ∷ pos 20 ∷ pos 2 ∷ pos 0 ∷ pos 0 ∷ []

lossy_fields_fit : AllSigned lossy_fields
lossy_fields_fit = omega arith

lossy-figures :
    AllSigned (
      figures whole_numbers lossy (update whole_numbers (new_controller two_requests) lossy).result)
unfolding update fields_of ◌+ℤ◌ ◌*ℤ◌ ◌-ℤ◌
lossy-figures = lossy_fields_fit

update-read_message_example :
    read_message (update whole_numbers (new_controller two_requests) lossy).result.message
    ≡ record {
      time = 1700000000;
      fields =
          figures whole_numbers lossy
            (update whole_numbers (new_controller two_requests) lossy).result;
      keys = keys_of (update whole_numbers (new_controller two_requests) lossy).result.idr_code;
    }
update-read_message_example =
    update-read_message whole_numbers (new_controller two_requests) lossy (omega arith)
      (omega arith) tt lossy-figures
