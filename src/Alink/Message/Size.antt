-- ===== src/Alink/Message/Size.antt =====
-- The size of the message: no field of the machine's width has more digits than the buffer holds.
use open_ipc_mobile_gs.Prelude.{
  ℕ, zero, suc, ◌+◌, ◌*◌, ◌/◌, ◌%◌, ◌≤◌, ◌<◌, ◌≡◌, List, [], ◌∷◌, ◌++◌, arith, ltb, if_either,
  lt→ltb, length, length-append, take_short, u64_mod,
}
use open_ipc_mobile_gs.Prelude.Int.{ℤ, pos, negsuc}
use open_ipc_mobile_gs.Prelude.Signed.{IsSigned}
use open_ipc_mobile_gs.Alink.Message.{
  digits, decimal, decimal_ℤ, fields_text, message_text, print_message,
}

-- The least number with `k + 2` digits.
abbrev power_of_ten : ℕ → ℕ
power_of_ten zero = 10
power_of_ten (suc k) = power_of_ten k * 10

length-digits : (k fuel n : ℕ) → n < power_of_ten k → length (digits fuel n) ≤ suc k
unfolding digits
length-digits k zero n h = omega arith
length-digits zero (suc fuel) n h = rw (lt→ltb n 10 h) (omega arith)
length-digits (suc k) (suc fuel) n h =
    if_either (λ t. length t ≤ suc (suc k)) (ltb n 10) ((b'0' + n) ∷ [])
      (digits fuel (n / 10) ++ ((b'0' + n % 10) ∷ [])) (omega arith)
      (omega (
        arith,
        length-digits k fuel (n / 10) (omega arith),
        length-append (digits fuel (n / 10)) ((b'0' + n % 10) ∷ []),
      ))

length-decimal : (k n : ℕ) → n < power_of_ten k → length (decimal n) ≤ suc k
unfolding decimal
length-decimal k n h = length-digits k (suc n) n h

-- The integers of 32 bits.
abbrev pub AllSigned : List ℤ → Type 0
AllSigned [] = Unit
AllSigned (z ∷ zs) = IsSigned 2147483648 z × AllSigned zs

length-decimal_ℤ : (z : ℤ) → IsSigned 2147483648 z → length (decimal_ℤ z) ≤ 11
unfolding decimal_ℤ
length-decimal_ℤ (pos n) h = omega (arith, length-decimal 9 n (omega arith))
length-decimal_ℤ (negsuc n) h = omega (arith, length-decimal 9 (suc n) (omega arith))

length-fields_text : (zs : List ℤ) → AllSigned zs → length (fields_text zs) ≤ 12 * length zs
length-fields_text [] v = omega arith
length-fields_text (z ∷ zs) v = omega (
  arith,
  length-append (b':' ∷ decimal_ℤ z) (fields_text zs),
  length-decimal_ℤ z v.0,
  length-fields_text zs v.1,
)

-- `snprintf` cuts nothing off the message.
pub print_message-whole :
    (time : ℕ) (zs : List ℤ)
    → time < u64_mod
    → length zs ≤ 19
    → AllSigned zs
    → print_message time zs ≡ message_text time zs
unfolding print_message message_text
print_message-whole time zs h short v = take_short 255 (message_text time zs) (
    omega (
      arith,
      length-append (decimal time) (fields_text zs),
      length-decimal 19 time (omega arith),
      length-fields_text zs v,
    ))
