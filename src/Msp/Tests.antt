-- ===== src/Msp/Tests.antt =====
-- The OSD decoder on concrete messages: cases of core/tests/test_msp.cpp, and the theorems applied.
use open_ipc_mobile_gs.Prelude.{
  false, ◌+◌, ◌*◌, ◌≡◌, ◌≢◌, refl, true, List, [], ◌∷◌, ◌++◌, arith, Bytes, some, get_elem?, add64,
}
use open_ipc_mobile_gs.Msp.Canvas.{set_canvas}
use open_ipc_mobile_gs.Msp.Checksum.{crc_over, xor_over}
use open_ipc_mobile_gs.Msp.Checksum.Detection.{checksum_differs}
use open_ipc_mobile_gs.Msp.Decoder.{
  MspOsdDecoder, idle, initial, push, handle_display_port, run_command, display_port_cmd, handle_in,
  close_message, dispatch_message,
}
use open_ipc_mobile_gs.Msp.Decoder.Reading.{Message, v1_message, encode}
use open_ipc_mobile_gs.Msp.Decoder.Frames.{
  Item, noise, stray, dollar, undirected, oversize, whole, wire, receive_all, push-receive_all,
}
use open_ipc_mobile_gs.Msp.Decoder.Invariant.{IsValid, initial-IsValid, push-IsValid}
use open_ipc_mobile_gs.Msp.Decoder.Commands.{handle_display_port-published, push-write_string}

-- "AB" at row 2, column 51, on font page 1; three characters do not fit, the last is cut off.
abbrev text : Bytes
text = b'A' ∷ b'B' ∷ b'C' ∷ []

abbrev payload : Bytes
payload = 3 ∷ 2 ∷ 51 ∷ 1 ∷ text

abbrev write_v1 : Message
write_v1 = v1_message b'>' 182 payload 194

abbrev draw_v1 : Message
draw_v1 = v1_message b'>' 182 (4 ∷ []) 0

abbrev items : List Item
items =
    noise 7
    ∷ stray 0x13
    ∷ dollar
    ∷ whole write_v1
    ∷ undirected false 9
    ∷ oversize b'>' 0 182 1025
    ∷ noise b'M'
    ∷ whole draw_v1
    ∷ []

abbrev fresh : MspOsdDecoder
fresh = initial true

checksum_v1 : xor_over 177 payload ≡ 194
checksum_v1 = refl

fresh_idle : fresh.state ≡ idle
unfolding initial
fresh_idle = refl

fresh_cols : fresh.frame.cols ≡ 53
unfolding initial set_canvas
fresh_cols = refl

-- The draw message has a wrong checksum: it is counted and not dispatched.
push-items :
    ((push fresh (wire items)).messages ≡ 1) × ((push fresh (wire items)).checksum_errors ≡ 1)
unfolding initial set_canvas handle_in close_message dispatch_message handle_display_port add64
    run_command display_port_cmd
push-items = (refl, refl)

push-receive_all_example : push fresh (wire items) ≡ receive_all fresh items
push-receive_all_example = push-receive_all fresh items fresh_idle (ground arith)

push-IsValid_example : IsValid (push fresh (wire items))
push-IsValid_example = push-IsValid fresh (wire items) (omega arith) (initial-IsValid true)

push-write_string_example :
    get_elem? (push fresh (encode write_v1)).frame.cells (2 * fresh.frame.cols + 52)
    ≡ some (record { glyph = 322; attributes = 1 })
unfolding initial set_canvas
push-write_string_example =
    push-write_string fresh write_v1 2 51 1 text 2 52 refl (initial-IsValid true).grid
      (refl, omega arith) refl refl refl (omega arith)

handle_display_port-published_example :
    ((handle_display_port fresh (4 ∷ [])).published
      ≡ fresh.published ++ ((handle_display_port fresh (4 ∷ [])).frame ∷ []))
    × ((handle_display_port fresh (4 ∷ [])).frames ≡ add64 fresh.frames 1)
unfolding initial
handle_display_port-published_example = handle_display_port-published fresh (4 ∷ [])

checksum_differs_example :
    (crc_over 0 (1 ∷ 2 ∷ 3 ∷ []) ≢ crc_over 0 (1 ∷ 9 ∷ 3 ∷ []))
    × (xor_over 0 (1 ∷ 2 ∷ 3 ∷ []) ≢ xor_over 0 (1 ∷ 9 ∷ 3 ∷ []))
checksum_differs_example =
    checksum_differs (1 ∷ []) (3 ∷ []) 2 9 0 (omega arith) (omega arith) (omega arith) (omega arith)
      (omega arith) (omega arith)
