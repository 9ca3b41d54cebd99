-- ===== src/Prelude/Signed.antt =====
-- The bit patterns of signed machine integers, and the little-endian fields of the wire formats.
use open_ipc_mobile_gs.Prelude.{
  ℕ, ◌+◌, ◌-◌, ◌*◌, ◌/◌, ◌%◌, ◌<◌, ◌≡◌, arith, ltb, if◌then◌else◌, u16_mod,
}
use open_ipc_mobile_gs.Prelude.Int.{ℤ, pos, negsuc}

-- A pattern of the width whose top bit weighs `half`, as the integer that it stands for.
abbrev pub signed : ℕ → ℕ → ℤ
signed half n = if ltb n half then pos n else negsuc (half + half - 1 - n)

abbrev pub pattern_of : ℕ → ℤ → ℕ
pattern_of half (pos n) = n
pattern_of half (negsuc n) = half + half - 1 - n

-- The integers of that width.
abbrev pub IsSigned : ℕ → ℤ → Type 0
IsSigned half (pos n) = n < half
IsSigned half (negsuc n) = n < half

pub signed-pattern_of : (half : ℕ) (z : ℤ) → IsSigned half z → signed half (pattern_of half z) ≡ z
signed-pattern_of half (pos n) h = ground arith
signed-pattern_of half (negsuc n) h = ground arith

pub pattern_of-lt : (half : ℕ) (z : ℤ) → IsSigned half z → pattern_of half z < half + half
pattern_of-lt half (pos n) h = omega arith
pattern_of-lt half (negsuc n) h = omega arith

abbrev pub le16 : ℕ → ℕ → ℕ
le16 a b = a + b * 256

abbrev pub le32 : ℕ → ℕ → ℕ → ℕ → ℕ
le32 a b c d = a + b * 256 + c * 65536 + d * 16777216

pub le16-bytes : (n : ℕ) → n < u16_mod → le16 (n % 256) (n / 256) ≡ n
le16-bytes n h = omega arith

pub le32-bytes : (n : ℕ) → le32 (n % 256) (n / 256 % 256) (n / 65536 % 256) (n / 16777216) ≡ n
le32-bytes n = omega arith
