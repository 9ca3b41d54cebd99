-- ===== src/Msp/Checksum.antt =====
-- `Crc8DvbS2` (core/src/msp/displayport.cpp), the checksum of MSP v2, and the XOR of MSP v1.
pub mod Detection
use open_ipc_mobile_gs.Prelude.{
  ℕ, zero, suc, ◌*◌, ◌%◌, ◌≡◌, [], ◌∷◌, refl, if◌then◌else◌, bit_xor, bit_set, Bytes,
}

-- One turn of the loop over the bits.
unfoldable pub crc_turn : ℕ → ℕ
crc_turn crc = if bit_set crc 128 then bit_xor (crc * 2) 0xd5 % 256 else crc * 2 % 256

abbrev crc_turns : ℕ → ℕ → ℕ
crc_turns zero crc = crc
crc_turns (suc n) crc = crc_turns n (crc_turn crc)

unfoldable pub crc8_dvb_s2 : ℕ → ℕ → ℕ
unfolding crc_turn
crc8_dvb_s2 crc byte = crc_turns 8 (bit_xor crc byte)

-- The checksum over a run of bytes.
abbrev pub crc_over : ℕ → Bytes → ℕ
crc_over crc [] = crc
crc_over crc (b ∷ bs) = crc_over (crc8_dvb_s2 crc b) bs

abbrev pub xor_over : ℕ → Bytes → ℕ
xor_over acc [] = acc
xor_over acc (b ∷ bs) = xor_over (bit_xor acc b) bs

-- The published check value of CRC-8/DVB-S2, over the digits 1 to 9.
check_value : crc_over 0 (b'1' ∷ b'2' ∷ b'3' ∷ b'4' ∷ b'5' ∷ b'6' ∷ b'7' ∷ b'8' ∷ b'9' ∷ []) ≡ 0xbc
unfolding crc8_dvb_s2
check_value = refl
