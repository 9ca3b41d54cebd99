-- ===== src/Wfb/Signal/Average.antt =====
-- The average of 8-bit figures lies between the least and the greatest of them.
use native.Mathlib.Nat.{le-div_iff_mul-le, div-le_of_le-mul, mul_comm}
use open_ipc_mobile_gs.Prelude.{ℕ, zero, suc, ◌+◌, ◌*◌, ◌/◌, ◌^◌, ◌≤◌, ◌<◌, ◌≡◌, arith}
use open_ipc_mobile_gs.Prelude.Int.{
  ℤ, pos, negsuc, sub_ℕ, pos_part, neg_part, ◌≤ℤ◌, ◌+ℤ◌, +ℤ_parts, int_laws,
}
use open_ipc_mobile_gs.Wfb.Signal.{min_ℤ, max_ℤ, divide, int8_of, int32_of, average}

-- An `int8_t`.
abbrev pub IsInt8 : ℤ → Type 0
IsInt8 x = (negsuc 127 ≤ℤ x) × (x ≤ℤ pos 127)

mul_mono : (c m n : ℕ) → m ≤ n → c * m ≤ c * n
mul_mono zero m n h = omega arith
mul_mono (suc c) m n h = omega (arith, mul_mono c m n h)

-- `count` times `least` is no more than the sum, and the sum no more than `count` times `greatest`.
pub record IsSum (count : ℕ) (sum least greatest : ℤ) : Type 0 where
  pub low : count * pos_part least + neg_part sum ≤ pos_part sum + count * neg_part least
  pub high : pos_part sum + count * neg_part greatest ≤ count * pos_part greatest + neg_part sum
  pub least_fits : IsInt8 least
  pub greatest_fits : IsInt8 greatest

div-low : (c m n : ℕ) → 0 < c → c * m ≤ n → m ≤ n / c
div-low c m n h k = (le-div_iff_mul-le h).1 (omega (arith, mul_comm m c))

div-high : (c m n : ℕ) → n ≤ c * m → n / c ≤ m
div-high c m n k = div-le_of_le-mul c k

negative_parts : (q : ℕ) → (pos_part (sub_ℕ 0 q) ≡ 0) × (neg_part (sub_ℕ 0 q) ≡ q)
negative_parts q = ground arith

divide-least :
    (c : ℕ) (s a : ℤ)
    → 0 < c
    → c * pos_part a + neg_part s ≤ pos_part s + c * neg_part a
    → a ≤ℤ divide s (pos c)
divide-least c (pos n) (pos p) h k = omega (arith, div-low c p n h (omega arith))
divide-least c (pos n) (negsuc p) h k = omega arith
divide-least c (negsuc n) (pos p) h k = absurd (omega arith)
divide-least c (negsuc n) (negsuc p) h k =
    let parts = negative_parts (suc n / c) in
    omega (arith, div-high c (suc p) (suc n) (omega arith), parts.0, parts.1)

divide-greatest :
    (c : ℕ) (s b : ℤ)
    → 0 < c
    → pos_part s + c * neg_part b ≤ c * pos_part b + neg_part s
    → divide s (pos c) ≤ℤ b
divide-greatest c (pos n) (pos p) h k = omega (arith, div-high c p n (omega arith))
divide-greatest c (pos n) (negsuc p) h k =
    absurd (omega (arith, mul_mono c 1 (suc p) (omega arith)))
divide-greatest c (negsuc n) (pos p) h k =
    let parts = negative_parts (suc n / c) in omega (arith, parts.0, parts.1)
divide-greatest c (negsuc n) (negsuc p) h k =
    let parts = negative_parts (suc n / c) in
    omega (arith, div-low c (suc p) (suc n) h (omega arith), parts.0, parts.1)

int8_of_fits : (x a b : ℤ) → IsInt8 a → IsInt8 b → a ≤ℤ x → x ≤ℤ b → int8_of x ≡ x
int8_of_fits (pos n) a b p q h k = ground arith
int8_of_fits (negsuc n) a b p q h k = ground arith

-- The average of a path's figures, which its cast to 8 bits leaves as it is.
pub average-IsSum :
    (c : ℕ) (s a b : ℤ)
    → 0 < c
    → IsSum c s a b
    → (a ≤ℤ average s (pos c)) × (average s (pos c) ≤ℤ b)
unfolding average
average-IsSum c s a b h v =
    let low = divide-least c s a h v.low in
    let high = divide-greatest c s b h v.high in
    rw (int8_of_fits (divide s (pos c)) a b v.least_fits v.greatest_fits low high) (low, high)

int8_parts : (x : ℤ) → IsInt8 x → (pos_part x ≤ 128) × (neg_part x ≤ 128)
int8_parts (pos n) h = omega arith
int8_parts (negsuc n) h = omega arith

wide : (c m n : ℕ) → c < 2 ^ 24 → m ≤ 128 → n ≤ c * m → n < 2 ^ 31
wide c m n h k l = omega (arith, mul_mono c m 128 k)

-- Sums of fewer than 2^24 figures of 8 bits fit 32 bits.
pub int32_of-IsSum : (c : ℕ) (s a b : ℤ) → c < 2 ^ 24 → IsSum c s a b → int32_of s ≡ s
int32_of-IsSum c (pos n) a b h v =
    let small = wide c (pos_part b) n h (int8_parts b v.greatest_fits).0 (omega (arith, v.high)) in
    ground arith
int32_of-IsSum c (negsuc n) a b h v =
    let small =
      wide c (neg_part a) (suc n) h (int8_parts a v.least_fits).1 (omega (arith, v.low)) in
    ground arith

-- The first figure of a path, and a further one.
pub first-IsSum : (x : ℤ) → IsInt8 x → IsSum 1 (pos 0 +ℤ x) x x
first-IsSum x h = record {
  low = omega int_laws;
  high = omega int_laws;
  least_fits = h;
  greatest_fits = h;
}

min_parts : (a x : ℤ) → (min_ℤ a x ≤ℤ a) × (min_ℤ a x ≤ℤ x)
min_parts a x = ground arith

max_parts : (a x : ℤ) → (a ≤ℤ max_ℤ a x) × (x ≤ℤ max_ℤ a x)
max_parts a x = ground arith

min-IsInt8 : (a x : ℤ) → IsInt8 a → IsInt8 x → IsInt8 (min_ℤ a x)
min-IsInt8 a x h k = ground arith

max-IsInt8 : (a x : ℤ) → IsInt8 a → IsInt8 x → IsInt8 (max_ℤ a x)
max-IsInt8 a x h k = ground arith

-- A bound that moves outwards stays a bound of `c` times.
scale : (c p q n m : ℕ) → p + n ≤ q + m → c * p + c * n ≤ c * q + c * m
scale c p q n m h = omega (arith, mul_mono c (p + n) (q + m) h)

next-low :
    (c : ℕ) (s a x m : ℤ)
    → m ≤ℤ a
    → m ≤ℤ x
    → c * pos_part a + neg_part s ≤ pos_part s + c * neg_part a
    → (c + 1) * pos_part m + neg_part (s +ℤ x) ≤ pos_part (s +ℤ x) + (c + 1) * neg_part m
next-low c s a x m h k l =
    omega (arith, +ℤ_parts s x, scale c (pos_part m) (pos_part a) (neg_part a) (neg_part m) h)

next-high :
    (c : ℕ) (s b x m : ℤ)
    → b ≤ℤ m
    → x ≤ℤ m
    → pos_part s + c * neg_part b ≤ c * pos_part b + neg_part s
    → pos_part (s +ℤ x) + (c + 1) * neg_part m ≤ (c + 1) * pos_part m + neg_part (s +ℤ x)
next-high c s b x m h k l =
    omega (arith, +ℤ_parts s x, scale c (pos_part b) (pos_part m) (neg_part m) (neg_part b) h)

pub next-IsSum :
    (c : ℕ) (s a b x : ℤ)
    → IsInt8 x
    → IsSum c s a b
    → IsSum (c + 1) (s +ℤ x) (min_ℤ a x) (max_ℤ b x)
next-IsSum c s a b x h v = record {
  low = next-low c s a x (min_ℤ a x) (min_parts a x).0 (min_parts a x).1 v.low;
  high = next-high c s b x (max_ℤ b x) (max_parts b x).0 (max_parts b x).1 v.high;
  least_fits = min-IsInt8 a x v.least_fits h;
  greatest_fits = max-IsInt8 b x v.greatest_fits h;
}
