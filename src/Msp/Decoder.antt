-- ===== src/Msp/Decoder.antt =====
-- `MspOsdDecoder` (core/src/msp/displayport.cpp): the MSP byte machine and the DisplayPort commands.
-- `published` logs the calls of `callback_`, oldest first.
pub mod Reading
pub mod Frames
pub mod Invariant
pub mod Commands
use open_ipc_mobile_gs.Prelude.{
  ℕ, ◌+◌, ◌*◌, ◌%◌, Bool, true, false, ◌&&◌, ◌||◌, List, [], ◌∷◌, ◌++◌, ltb, leb, ◌==◌,
  if◌then◌else◌, length, drop, Bytes, byte, bit_xor, add64,
}
use open_ipc_mobile_gs.Prelude.Int.{pos}
use open_ipc_mobile_gs.Msp.Canvas.{OsdFrame, set_canvas, clear, write_string}
use open_ipc_mobile_gs.Msp.Checksum.{crc8_dvb_s2}

-- In `kV2FunctionHi` and `kV2SizeHi` the field holds the low byte alone, so `|=` of the high byte
-- is `+`.
pub data State : Type 0 where
  idle header_m header_arrow : State
  v1_size v1_command v1_payload v1_checksum : State
  v2_flags v2_function_lo v2_function_hi v2_size_lo v2_size_hi v2_payload v2_checksum : State

pub record MspOsdDecoder : Type 0 where
  pub state : State
  pub v2 : Bool
  pub function : ℕ
  pub expected_size : ℕ
  pub checksum : ℕ
  pub payload : Bytes
  pub frame : OsdFrame
  pub callback_set : Bool
  pub frames : ℕ
  pub messages : ℕ
  pub checksum_errors : ℕ
  pub published : List OsdFrame

abbrev pub msp_display_port : ℕ
msp_display_port = 182

abbrev pub empty_frame : OsdFrame
empty_frame = record { rows = 0; cols = 0; cells = [] }

-- The constructor: an HD canvas.
unfoldable pub initial : Bool → MspOsdDecoder
initial set = record {
  state = idle;
  v2 = false;
  function = 0;
  expected_size = 0;
  checksum = 0;
  payload = [];
  frame = set_canvas empty_frame (pos 20) (pos 53);
  callback_set = set;
  frames = 0;
  messages = 0;
  checksum_errors = 0;
  published = [];
}

-- `if (callback_) callback_(frame_);`
unfoldable pub publish : MspOsdDecoder → MspOsdDecoder
publish d = record d {
  published = if d.callback_set then d.published ++ (d.frame ∷ []) else d.published;
}

-- The subcommands that the switch tells apart; all others leave the decoder as it is.
pub data DisplayPortCmd : Type 0 where
  release clear_screen write draw_screen options ignored : DisplayPortCmd

unfoldable pub display_port_cmd : ℕ → DisplayPortCmd
display_port_cmd b =
    if b == 1
    then release
    else if b == 2
    then clear_screen
    else if b == 3
    then write
    else if b == 4
    then draw_screen
    else if b == 5
    then options
    else ignored

-- The cases of the switch, on the whole payload.
unfoldable pub run_command : DisplayPortCmd → MspOsdDecoder → Bytes → MspOsdDecoder
unfolding publish
run_command clear_screen d payload = record d { frame = clear d.frame }
run_command write d payload = if ltb (length payload) 4 then d else record d {
  frame = write_string d.frame (byte payload 1) (byte payload 2) (byte payload 3) (drop 4 payload);
}
run_command draw_screen d payload = publish (record d { frames = add64 d.frames 1 })
run_command options d payload =
    if ltb (length payload) 3
    then d
    else if byte payload 2 == 0
    then record d { frame = set_canvas d.frame (pos 16) (pos 30) }
    else record d { frame = set_canvas d.frame (pos 20) (pos 53) }
run_command release d payload = publish (record d { frame = clear d.frame })
run_command ignored d payload = d

unfoldable pub handle_display_port : MspOsdDecoder → Bytes → MspOsdDecoder
handle_display_port d payload =
    if ltb (length payload) 1 then d else run_command (display_port_cmd (byte payload 0)) d payload

unfoldable pub dispatch_message : MspOsdDecoder → MspOsdDecoder
dispatch_message d =
    let d' = record d { messages = add64 d.messages 1 } in
    if d.function == msp_display_port then handle_display_port d' d.payload else d'

-- The two checksum states: a message that checks is dispatched, any other counted.
unfoldable pub close_message : MspOsdDecoder → ℕ → MspOsdDecoder
close_message d b =
    let done =
      if d.checksum == b
      then dispatch_message d
      else record d { checksum_errors = add64 d.checksum_errors 1 } in
    record done { state = idle }

-- One case of the switch over the state for each clause.
unfoldable pub handle_in : State → MspOsdDecoder → ℕ → MspOsdDecoder
handle_in idle d b = if b == b'$' then record d { state = header_m } else d
handle_in header_m d b =
    if b == b'M'
    then record d { v2 = false; state = header_arrow }
    else if b == b'X'
    then record d { v2 = true; state = header_arrow }
    else if b == b'$'
    then d
    else record d { state = idle }
handle_in header_arrow d b =
    if b == b'<' || b == b'>' || b == b'!'
    then record d { payload = []; checksum = 0; state = if d.v2 then v2_flags else v1_size }
    else record d { state = idle }
handle_in v1_size d b = record d { expected_size = b; checksum = b; state = v1_command }
handle_in v1_command d b = record d {
  function = b;
  checksum = bit_xor d.checksum b;
  state = if ltb 0 d.expected_size then v1_payload else v1_checksum;
}
handle_in v1_payload d b = record d {
  payload = d.payload ++ (b ∷ []);
  checksum = bit_xor d.checksum b;
  state = if leb d.expected_size (length (d.payload ++ (b ∷ []))) then v1_checksum else v1_payload;
}
handle_in v1_checksum d b = close_message d b
handle_in v2_flags d b = record d { checksum = crc8_dvb_s2 0 b; state = v2_function_lo }
handle_in v2_function_lo d b = record d {
  function = b;
  checksum = crc8_dvb_s2 d.checksum b;
  state = v2_function_hi;
}
handle_in v2_function_hi d b = record d {
  function = d.function + b * 256;
  checksum = crc8_dvb_s2 d.checksum b;
  state = v2_size_lo;
}
handle_in v2_size_lo d b = record d {
  expected_size = b;
  checksum = crc8_dvb_s2 d.checksum b;
  state = v2_size_hi;
}
handle_in v2_size_hi d b =
    let size = d.expected_size + b * 256 in
    record d {
      expected_size = size;
      checksum = crc8_dvb_s2 d.checksum b;
      state = if ltb 1024 size then idle else if ltb 0 size then v2_payload else v2_checksum;
    }
handle_in v2_payload d b = record d {
  payload = d.payload ++ (b ∷ []);
  checksum = crc8_dvb_s2 d.checksum b;
  state = if leb d.expected_size (length (d.payload ++ (b ∷ []))) then v2_checksum else v2_payload;
}
handle_in v2_checksum d b = close_message d b

abbrev pub handle_byte : MspOsdDecoder → ℕ → MspOsdDecoder
handle_byte d b = handle_in d.state d b

abbrev pub push : MspOsdDecoder → Bytes → MspOsdDecoder
push d [] = d
push d (b ∷ bs) = push (handle_byte d b) bs
