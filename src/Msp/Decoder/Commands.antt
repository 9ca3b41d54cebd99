-- ===== src/Msp/Decoder/Commands.antt =====
-- What a received DisplayPort message does to the screen that the application sees.
use open_ipc_mobile_gs.Prelude.{
  ℕ, ◌+◌, ◌*◌, ◌<◌, ◌≡◌, refl, sym, ap, ◌∙◌, Bool, ◌&&◌, ◌||◌, [], ◌∷◌, ◌++◌, arith, length, Bytes,
  byte, ltb, ◌==◌, if◌then◌else◌, add64, none, get_elem?,
}
use mathlib.Core.List.{append-nil}
use open_ipc_mobile_gs.Msp.Canvas.{OsdFrame, write_string}
use open_ipc_mobile_gs.Msp.Canvas.Cells.{IsGrid}
use open_ipc_mobile_gs.Msp.Canvas.Text.{overlay, text_at, cell_at, write_string-cell_at}
use open_ipc_mobile_gs.Msp.Decoder.{
  MspOsdDecoder, handle_display_port, run_command, display_port_cmd, publish, push,
  dispatch_message, idle,
}
use open_ipc_mobile_gs.Msp.Decoder.Reading.{
  Message, v1_message, v2_message, checksum_of, IsMessage, encode, loaded, sent_checksum,
}
use open_ipc_mobile_gs.Msp.Decoder.Frames.{receive, push-receive_all, whole}

-- DRAW_SCREEN and RELEASE hand the screen over; nothing else does.
abbrev pub shows : Bytes → Bool
shows payload = byte payload 0 == 4 || byte payload 0 == 1

-- The callback gets the canvas as the command leaves it, once, at DRAW_SCREEN and RELEASE, and
-- nothing at any other payload; `frames` counts the DRAW_SCREENs.
pub handle_display_port-published :
    (d : MspOsdDecoder) (payload : Bytes)
    → let r = handle_display_port d payload in
      (r.published ≡ (
        if ltb 0 (length payload) && shows payload && d.callback_set
        then d.published ++ (r.frame ∷ [])
        else d.published))
      × (r.frames
          ≡ (if ltb 0 (length payload) && byte payload 0 == 4 then add64 d.frames 1 else d.frames))
unfolding handle_display_port run_command display_port_cmd publish
handle_display_port-published d payload = ground arith

abbrev pub function_of : Message → ℕ
function_of (v1_message dir fn payload ck) = fn
function_of (v2_message dir flags fn payload ck) = fn

abbrev pub payload_of : Message → Bytes
payload_of (v1_message dir fn payload ck) = payload
payload_of (v2_message dir flags fn payload ck) = payload

-- The whole message on the wire does what its command does to the decoder with its fields loaded.
receive_display_port :
    (d : MspOsdDecoder) (m : Message)
    → function_of m ≡ 182
    → checksum_of m ≡ sent_checksum m
    → receive d m ≡ (
        let ready = loaded d m in
        record (handle_display_port
          (record ready { messages = add64 d.messages 1 })
          (payload_of m)) { state = idle })
unfolding dispatch_message
receive_display_port d (v1_message dir fn payload ck) e k = ground arith
receive_display_port d (v2_message dir flags fn payload ck) e k = ground arith

write_frame :
    (d : MspOsdDecoder) (row col attribute : ℕ) (chars : Bytes)
    → (handle_display_port d (3 ∷ row ∷ col ∷ attribute ∷ chars)).frame
      ≡ write_string d.frame row col attribute chars
unfolding handle_display_port run_command display_port_cmd
write_frame d row col attribute chars = ground arith

loaded_frame : (d : MspOsdDecoder) (m : Message) → (loaded d m).frame ≡ d.frame
loaded_frame d (v1_message dir fn payload ck) = refl
loaded_frame d (v2_message dir flags fn payload ck) = refl

push-encode_frame :
    (d : MspOsdDecoder) (m : Message) (row col attribute : ℕ) (chars : Bytes)
    → d.state ≡ idle
    → IsMessage m
    → function_of m ≡ 182
    → payload_of m ≡ 3 ∷ row ∷ col ∷ attribute ∷ chars
    → checksum_of m ≡ sent_checksum m
    → (push d (encode m)).frame ≡ write_string d.frame row col attribute chars
push-encode_frame d m row col attribute chars e h f p k =
    ap (λ (b : Bytes). (push d b).frame) (sym (append-nil (encode m)))
    ∙ ap (λ (r : MspOsdDecoder). r.frame)
        (push-receive_all d (whole m ∷ []) e (h, tt) ∙ receive_display_port d m f k)
    ∙ ap
        (λ (b : Bytes).
          (handle_display_port (record (loaded d m) { messages = add64 d.messages 1 }) b).frame)
        p
    ∙ write_frame (record (loaded d m) { messages = add64 d.messages 1 }) row col attribute chars
    ∙ ap (λ (g : OsdFrame). write_string g row col attribute chars) (loaded_frame d m)

-- From bytes to cells: a WRITE_STRING that arrives in a whole MSP message, v1 or v2, with the
-- right checksum, sets the cells of its row that its characters reach, up to the first NUL or the
-- right edge, each to the glyph of its character in the font page that the attribute's low two bits
-- name (256 glyphs to a page), with the attribute, and leaves every other cell; one whose start lies
-- outside the canvas changes none. The decoder is idle in front of the message.
pub push-write_string :
    (d : MspOsdDecoder) (m : Message) (row col attribute : ℕ) (chars : Bytes) (r c : ℕ)
    → d.state ≡ idle
    → IsGrid d.frame
    → IsMessage m
    → function_of m ≡ 182
    → payload_of m ≡ 3 ∷ row ∷ col ∷ attribute ∷ chars
    → checksum_of m ≡ sent_checksum m
    → c < d.frame.cols
    → get_elem? (push d (encode m)).frame.cells (r * d.frame.cols + c) ≡ (
        if ltb row d.frame.rows && ltb col d.frame.cols
        then overlay attribute
            (if r == row then text_at chars col c else none)
            (cell_at d.frame r c)
        else cell_at d.frame r c)
push-write_string d m row col attribute chars r c e v h f p k j =
    ap (λ (g : OsdFrame). get_elem? g.cells (r * d.frame.cols + c))
      (push-encode_frame d m row col attribute chars e h f p k)
    ∙ write_string-cell_at d.frame row col attribute chars r c v j
