-- ===== src/Alink/Framing.antt =====
-- `AlinkController::Frame` (core/src/alink/alink.cpp): a 4-byte big-endian length in front of the
-- message.
mod Tests
use open_ipc_mobile_gs.Prelude.{
  ℕ, zero, suc, ◌+◌, ◌*◌, ◌/◌, ◌%◌, ◌≤◌, ◌<◌, ◌≡◌, refl, ap, ◌∙◌, List, [], ◌∷◌, ◌++◌, arith,
  length, take, drop, Bytes, be32, u32_mod, length-append, take-append_length, drop-append_length,
}
use mathlib.Core.List.{append_assoc}

pub frame_message : Bytes → Bytes
frame_message message =
    let size = length message % u32_mod in
    size / 16777216 % 256 ∷ size / 65536 % 256 ∷ size / 256 % 256 ∷ size % 256 ∷ message

pub length-frame_message : (message : Bytes) → 4 ≤ length (frame_message message)
unfolding frame_message
length-frame_message message = omega arith

-- A reader of the stream, as the protocol describes it: a length, then that many bytes. The fuel is
-- the number of messages at most.
pub read_all : ℕ → Bytes → List Bytes
read_all zero rest = []
read_all (suc n) [] = []
read_all (suc n) (a ∷ []) = []
read_all (suc n) (a ∷ b ∷ []) = []
read_all (suc n) (a ∷ b ∷ c ∷ []) = []
read_all (suc n) (a ∷ b ∷ c ∷ d ∷ rest) =
    take (be32 a b c d) rest ∷ read_all n (drop (be32 a b c d) rest)

abbrev pub frames : List Bytes → Bytes
frames [] = []
frames (m ∷ ms) = frame_message m ++ frames ms

-- Every message is shorter than 2^32 bytes.
abbrev pub AllFit : List Bytes → Type 0
AllFit [] = Unit
AllFit (m ∷ ms) = (length m < u32_mod) × AllFit ms

size-bytes :
    (n : ℕ)
    → n < u32_mod
    → be32
        (n % u32_mod / 16777216 % 256)
        (n % u32_mod / 65536 % 256)
        (n % u32_mod / 256 % 256)
        (n % u32_mod % 256)
      ≡ n
size-bytes n h = omega arith

-- A reader of the length prefixes gets the messages back from the framed stream, each whole and in
-- order, if each is shorter than 2^32 bytes.
pub read_all-frames :
    (n : ℕ) (ms : List Bytes) → length ms ≤ n → AllFit ms → read_all n (frames ms) ≡ ms
unfolding read_all frame_message
read_all-frames zero [] h v = refl
read_all-frames zero (m ∷ ms) h v = absurd (omega arith)
read_all-frames (suc n) [] h v = refl
read_all-frames (suc n) (m ∷ ms) h v =
    rw
      (
        size-bytes (length m) v.0,
        take-append_length m (frames ms),
        drop-append_length m (frames ms),
      )
      (ap (m ∷◌) (read_all-frames n ms (omega arith) v.1))
