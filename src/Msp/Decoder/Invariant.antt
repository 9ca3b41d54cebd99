-- ===== src/Msp/Decoder/Invariant.antt =====
-- The decoder's invariant: the canvas is a full grid, and what is buffered is bounded in every
-- state, whatever bytes arrive.
use open_ipc_mobile_gs.Prelude.{
  ℕ, ◌≤◌, ◌<◌, ◌≡◌, refl, Bool, [], ◌∷◌, arith, length, length-append, Bytes, IsBytes, byte, drop,
  add64,
}
use open_ipc_mobile_gs.Prelude.Int.{pos}
use open_ipc_mobile_gs.Msp.Canvas.{set_canvas}
use open_ipc_mobile_gs.Msp.Canvas.Cells.{
  IsGrid, set_canvas-IsGrid, clear-IsGrid, write_string-IsGrid,
}
use open_ipc_mobile_gs.Msp.Decoder.{
  State, v1_size, v1_command, v1_payload, v1_checksum, v2_flags, v2_function_lo, v2_function_hi,
  v2_size_lo, v2_size_hi, v2_payload, v2_checksum, MspOsdDecoder, handle_in, handle_byte, push,
  close_message, dispatch_message, handle_display_port, run_command, DisplayPortCmd, release,
  clear_screen, write, draw_screen, options, ignored, display_port_cmd, publish, initial,
}

-- What each state knows of the size announced, the payload read and the function.
abbrev pub Buffered : State → ℕ → Bytes → ℕ → Type 0
Buffered v1_size size payload function = length payload ≡ 0
Buffered v1_command size payload function = (length payload ≡ 0) × (size < 256)
Buffered v1_payload size payload function = (length payload < size) × (size < 256)
Buffered v2_flags size payload function = length payload ≡ 0
Buffered v2_function_lo size payload function = length payload ≡ 0
Buffered v2_function_hi size payload function = (length payload ≡ 0) × (function < 256)
Buffered v2_size_lo size payload function = length payload ≡ 0
Buffered v2_size_hi size payload function = (length payload ≡ 0) × (size < 256)
Buffered v2_payload size payload function = (length payload < size) × (size ≤ 1024)
Buffered _ size payload function = length payload ≤ 1024

pub record IsValid (d : MspOsdDecoder) : Type 0 where
  pub grid : IsGrid d.frame
  pub buffered : Buffered d.state d.expected_size d.payload d.function
  pub function_fits : d.function < 65536

publish_frame : (d : MspOsdDecoder) → (publish d).frame ≡ d.frame
unfolding publish
publish_frame d = refl

run_command-IsGrid :
    (c : DisplayPortCmd) (d : MspOsdDecoder) (payload : Bytes)
    → IsGrid d.frame
    → IsGrid (run_command c d payload).frame
unfolding run_command
run_command-IsGrid release d payload v = clear-IsGrid d.frame v
run_command-IsGrid clear_screen d payload v = clear-IsGrid d.frame v
run_command-IsGrid write d payload v = ground (
  arith,
  write_string-IsGrid d.frame (byte payload 1) (byte payload 2) (byte payload 3) (drop 4 payload) v,
)
run_command-IsGrid draw_screen d payload v = v
run_command-IsGrid options d payload v = ground (
  arith,
  set_canvas-IsGrid d.frame (pos 16) (pos 30) v,
  set_canvas-IsGrid d.frame (pos 20) (pos 53) v,
)
run_command-IsGrid ignored d payload v = v

-- A command changes the canvas, the counters and the log alone.
run_command_keeps :
    (c : DisplayPortCmd) (d : MspOsdDecoder) (payload : Bytes)
    → ((run_command c d payload).payload ≡ d.payload)
      × ((run_command c d payload).function ≡ d.function)
unfolding run_command
run_command_keeps release d payload = (refl, refl)
run_command_keeps write d payload = ground arith
run_command_keeps options d payload = ground arith
run_command_keeps _ d payload = (refl, refl)

record Closed (d r : MspOsdDecoder) : Type 0 where
  grid : IsGrid r.frame
  payload_same : r.payload ≡ d.payload
  function_same : r.function ≡ d.function

dispatch_message-Closed : (d : MspOsdDecoder) → IsGrid d.frame → Closed d (dispatch_message d)
unfolding dispatch_message handle_display_port
dispatch_message-Closed d v =
    let d' = record d { messages = add64 d.messages 1 } in
    let c = display_port_cmd (byte d.payload 0) in
    ground (arith, run_command-IsGrid c d' d.payload v, run_command_keeps c d' d.payload)

close_message-IsValid :
    (d : MspOsdDecoder) (b : ℕ)
    → IsGrid d.frame
    → d.function < 65536
    → length d.payload ≤ 1024
    → IsValid (close_message d b)
unfolding close_message
close_message-IsValid d b v h k =
    let done = dispatch_message-Closed d v in
    ground (arith, done, done.grid, done.payload_same, done.function_same)

handle_in-IsValid :
    (s : State) (d : MspOsdDecoder) (b : ℕ)
    → d.state ≡ s
    → b < 256
    → IsGrid d.frame
    → Buffered s d.expected_size d.payload d.function
    → d.function < 65536
    → IsValid (handle_in s d b)
unfolding handle_in
handle_in-IsValid v1_checksum d b e h v k f = close_message-IsValid d b v f k
handle_in-IsValid v2_checksum d b e h v k f = close_message-IsValid d b v f k
handle_in-IsValid v1_payload d b e h v k f = ground (arith, length-append d.payload (b ∷ []))
handle_in-IsValid v2_payload d b e h v k f = ground (arith, length-append d.payload (b ∷ []))
handle_in-IsValid _ d b e h v k f = ground arith

-- Every byte keeps the decoder valid, so the payload buffer never holds more than 1024 bytes and
-- the canvas always has exactly its rows times its columns of cells.
pub push-IsValid :
    (d : MspOsdDecoder) (bytes : Bytes) → IsBytes bytes → IsValid d → IsValid (push d bytes)
push-IsValid d [] h v = v
push-IsValid d (b ∷ bs) h v =
    push-IsValid (handle_byte d b) bs h.1
      (handle_in-IsValid d.state d b refl h.0 v.grid v.buffered v.function_fits)

-- A new decoder is valid.
pub initial-IsValid : (set : Bool) → IsValid (initial set)
unfolding initial set_canvas
initial-IsValid set = record {
  grid = record { has_rows = omega arith; has_cols = omega arith; full = refl };
  buffered = omega arith;
  function_fits = omega arith;
}
