-- ===== src/Alink/Message.antt =====
-- The text that `AlinkController::Update` (core/src/alink/alink.cpp) writes with `snprintf`: whole
-- numbers in decimal, with colons between them.
pub mod Reading
pub mod Size
use open_ipc_mobile_gs.Prelude.{
  ℕ, zero, suc, ◌+◌, ◌/◌, ◌%◌, List, [], ◌∷◌, ◌++◌, ltb, if◌then◌else◌, Bytes, take,
}
use open_ipc_mobile_gs.Prelude.Int.{ℤ, pos, negsuc}

-- The digits of a number, on fuel: each round divides by ten.
pub digits : ℕ → ℕ → Bytes
digits zero n = []
digits (suc fuel) n =
    let front = digits fuel (n / 10) ++ ((b'0' + n % 10) ∷ []) in
    if ltb n 10 then (b'0' + n) ∷ [] else front

-- `%llu`; a number has no more digits than its value and one.
unfoldable pub decimal : ℕ → Bytes
unfolding digits
decimal n = digits (suc n) n

-- `%d`
unfoldable pub decimal_ℤ : ℤ → Bytes
unfolding decimal
decimal_ℤ (pos n) = decimal n
decimal_ℤ (negsuc n) = b'-' ∷ decimal (suc n)

-- The fields behind the first one, each with its colon.
abbrev pub fields_text : List ℤ → Bytes
fields_text [] = []
fields_text (z ∷ zs) = (b':' ∷ decimal_ℤ z) ++ fields_text zs

-- The text of the format; `snprintf` keeps 255 characters of it.
unfoldable pub message_text : ℕ → List ℤ → Bytes
unfolding decimal_ℤ
message_text time fields = decimal time ++ fields_text fields

unfoldable pub print_message : ℕ → List ℤ → Bytes
unfolding message_text
print_message time fields = take 255 (message_text time fields)
