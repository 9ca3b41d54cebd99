-- ===== src/Prelude/Octets.antt =====
-- Byte strings as lists of numbers, the big-endian fields that the wire formats share, and the
-- wrap-around of the machine's counters. `x >> k`, `x & (2^k - 1)` and `x & 2^k` are written by
-- `/` and `%` at numerals, and `|` of disjoint bits by `+`.
use Prim.Native.Nat.{ℕ, zero, suc, ◌+◌, ◌*◌, ◌/◌, ◌%◌, ◌≤◌, ◌<◌}
use mathlib.Core.Path.{◌≡◌, refl, ap}
use mathlib.Core.Bool.{Bool}
use mathlib.Core.List.{List, [], ◌∷◌, ◌++◌}
use native.Mathlib.Omega.{arith}
use open_ipc_mobile_gs.Prelude.Tests.{◌==◌}
use open_ipc_mobile_gs.Prelude.Lists.{length, get_or, take, drop}

abbrev pub Bytes : Type 0
Bytes = List ℕ

-- `p[i]`; the callers state that `i` is below the size.
abbrev pub byte : Bytes → ℕ → ℕ
byte xs i = get_or xs i 0

-- Every entry is an octet.
abbrev pub IsBytes : Bytes → Type 0
IsBytes [] = Unit
IsBytes (x ∷ xs) = (x < 256) × IsBytes xs

-- `(x & 2^k) != 0`, the weight 2^k given.
abbrev pub bit_set : ℕ → ℕ → Bool
bit_set x weight = x / weight % 2 == 1

abbrev pub be16 : ℕ → ℕ → ℕ
be16 a b = a * 256 + b

abbrev pub be32 : ℕ → ℕ → ℕ → ℕ → ℕ
be32 a b c d = a * 16777216 + b * 65536 + c * 256 + d

abbrev pub u8_mod : ℕ
u8_mod = 256

abbrev pub u16_mod : ℕ
u16_mod = 65536

abbrev pub u32_mod : ℕ
u32_mod = 4294967296

abbrev pub u64_mod : ℕ
u64_mod = 18446744073709551616

-- `counter += n` on a `uint64_t`.
unfoldable pub add64 : ℕ → ℕ → ℕ
add64 a n = (a + n) % u64_mod

pub add64-add64 : (a m n : ℕ) → add64 (add64 a m) n ≡ add64 a (m + n)
unfolding add64
add64-add64 a m n = omega arith

pub add64-lt : (a n : ℕ) → add64 a n < u64_mod
unfolding add64
add64-lt a n = omega arith

pub add64-zero : (a : ℕ) → a < u64_mod → add64 a 0 ≡ a
unfolding add64
add64-zero a h = omega arith

pub add64_comm : (a m n : ℕ) → add64 (add64 a m) n ≡ add64 (add64 a n) m
unfolding add64
add64_comm a m n = omega arith

-- The start of a buffer, read through an append.
module _ {ℓ} {A : Type ℓ} where
  pub get_or-append :
      (xs ys : List A) (i : ℕ) (d : A) → i < length xs → get_or (xs ++ ys) i d ≡ get_or xs i d
  get_or-append [] ys i d h = elim h [ ]
  get_or-append (x ∷ xs) ys zero d h = refl
  get_or-append (x ∷ xs) ys (suc i) d h = get_or-append xs ys i d (omega arith)

  pub get_or-append_right :
      (xs ys : List A) (i k : ℕ) (d : A) → k ≡ length xs + i → get_or (xs ++ ys) k d ≡ get_or ys i d
  get_or-append_right [] ys i k d e = rw e (ap (λ n. get_or ys n d) (omega arith))
  get_or-append_right (x ∷ xs) ys i zero d e = absurd (omega arith)
  get_or-append_right (x ∷ xs) ys i (suc k) d e = get_or-append_right xs ys i k d (omega arith)

  pub take-append : (n : ℕ) (xs ys : List A) → n ≤ length xs → take n (xs ++ ys) ≡ take n xs
  take-append zero xs ys h = refl
  take-append (suc n) [] ys h = elim h [ ]
  take-append (suc n) (x ∷ xs) ys h = ap (◌∷◌ x) (take-append n xs ys (omega arith))

  pub drop-append : (n : ℕ) (xs ys : List A) → n ≤ length xs → drop n (xs ++ ys) ≡ drop n xs ++ ys
  drop-append zero xs ys h = refl
  drop-append (suc n) [] ys h = elim h [ ]
  drop-append (suc n) (x ∷ xs) ys h = drop-append n xs ys (omega arith)

  pub take-append_length : (xs ys : List A) → take (length xs) (xs ++ ys) ≡ xs
  take-append_length [] ys = refl
  take-append_length (x ∷ xs) ys = ap (◌∷◌ x) (take-append_length xs ys)

  pub drop-append_length : (xs ys : List A) → drop (length xs) (xs ++ ys) ≡ ys
  drop-append_length [] ys = refl
  drop-append_length (x ∷ xs) ys = drop-append_length xs ys

  pub take_short : (n : ℕ) (xs : List A) → length xs ≤ n → take n xs ≡ xs
  take_short zero [] h = refl
  take_short zero (x ∷ xs) h = absurd (omega arith)
  take_short (suc n) [] h = refl
  take_short (suc n) (x ∷ xs) h = ap (◌∷◌ x) (take_short n xs (omega arith))

  pub take_all : (xs : List A) → take (length xs) xs ≡ xs
  take_all [] = refl
  take_all (x ∷ xs) = ap (◌∷◌ x) (take_all xs)
