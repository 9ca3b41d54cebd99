-- ===== src/Alink/Framing/Tests.antt =====
-- Framing on concrete messages.
use open_ipc_mobile_gs.Prelude.{◌≡◌, refl, List, [], ◌∷◌, arith, Bytes}
use open_ipc_mobile_gs.Alink.Framing.{frame_message, read_all, frames, read_all-frames}

framed_four : frame_message (9 ∷ 8 ∷ 7 ∷ 6 ∷ []) ≡ 0 ∷ 0 ∷ 0 ∷ 4 ∷ 9 ∷ 8 ∷ 7 ∷ 6 ∷ []
unfolding frame_message
framed_four = refl

abbrev messages : List Bytes
messages = (1 ∷ 2 ∷ []) ∷ [] ∷ (3 ∷ []) ∷ []

read_all-frames_example : read_all 3 (frames messages) ≡ messages
read_all-frames_example = read_all-frames 3 messages (omega arith) (omega arith)
