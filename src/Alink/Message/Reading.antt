-- ===== src/Alink/Message/Reading.antt =====
-- The reader's side, as the receiver of the message takes it apart: the parts between the colons,
-- each read as a decimal number with an optional sign.
use open_ipc_mobile_gs.Prelude.{
  ℕ, zero, suc, ◌+◌, ◌-◌, ◌*◌, ◌/◌, ◌%◌, ◌≤◌, ◌<◌, ◌≡◌, ◌≢◌, refl, sym, ap, ◌∙◌, List, [], ◌∷◌,
  ◌++◌, arith, ltb, ◌==◌, if◌then◌else◌, Bytes, false, if_split, ltb→lt,
}
use mathlib.Core.List.{append_assoc, append-nil}
use open_ipc_mobile_gs.Prelude.Int.{ℤ, pos, negsuc}
use open_ipc_mobile_gs.Alink.Message.{digits, decimal, decimal_ℤ}

-- The value of a run of digits, behind a value read before.
pub value : ℕ → Bytes → ℕ
value acc [] = acc
value acc (c ∷ cs) = value (acc * 10 + (c - b'0')) cs

pub negate : ℕ → ℤ
negate zero = pos 0
negate (suc n) = negsuc n

pub read_ℤ : Bytes → ℤ
read_ℤ [] = pos 0
read_ℤ (c ∷ cs) = if c == b'-' then negate (value 0 cs) else pos (value 0 (c ∷ cs))

-- The parts of a text between the colons; `part` is what was read of the part at hand.
pub split_colons : Bytes → Bytes → List Bytes
split_colons part [] = part ∷ []
split_colons part (c ∷ cs) =
    let more = split_colons (part ++ (c ∷ [])) cs in
    if c == b':' then part ∷ split_colons [] cs else more

-- No character of the text is a colon.
abbrev pub IsPlain : Bytes → Type 0
IsPlain [] = Unit
IsPlain (c ∷ cs) = (c ≢ b':') × IsPlain cs

abbrev AllDigits : Bytes → Type 0
AllDigits [] = Unit
AllDigits (c ∷ cs) = (b'0' ≤ c) × (c ≤ b'9') × AllDigits cs

AllDigits-append :
    (xs : Bytes) (d : ℕ) → d < 10 → AllDigits xs → AllDigits (xs ++ ((b'0' + d) ∷ []))
AllDigits-append [] d h v = (omega arith, omega arith, tt)
AllDigits-append (x ∷ xs) d h v = (v.0, v.1, AllDigits-append xs d h v.2)

digits-AllDigits : (fuel n : ℕ) → AllDigits (digits fuel n)
unfolding digits
digits-AllDigits zero n = tt
digits-AllDigits (suc fuel) n =
    if_split AllDigits (ltb n 10) ((b'0' + n) ∷ []) (digits fuel (n / 10) ++ ((b'0' + n % 10) ∷ []))
      (λ h. let small = ltb→lt n 10 h in (omega arith, omega arith, tt))
      (λ h.
        AllDigits-append (digits fuel (n / 10)) (n % 10) (omega arith)
          (digits-AllDigits fuel (n / 10)))

value-append :
    (acc : ℕ) (xs : Bytes) (d : ℕ) → value acc (xs ++ ((b'0' + d) ∷ [])) ≡ value acc xs * 10 + d
unfolding value
value-append acc [] d = omega arith
value-append acc (x ∷ xs) d = value-append (acc * 10 + (x - b'0')) xs d

value-digits : (fuel n : ℕ) → n < fuel → value 0 (digits fuel n) ≡ n
unfolding digits value
value-digits zero n h = elim h [ ]
value-digits (suc fuel) n h =
    if_split (λ t. value 0 t ≡ n) (ltb n 10) ((b'0' + n) ∷ [])
      (digits fuel (n / 10) ++ ((b'0' + n % 10) ∷ [])) (λ e. omega arith)
      (λ e.
        let large : 10 ≤ n = ground arith in
        let front = value-digits fuel (n / 10) (omega arith) in
        value-append 0 (digits fuel (n / 10)) (n % 10) ∙ omega (arith, front))

pub value-decimal : (n : ℕ) → value 0 (decimal n) ≡ n
unfolding decimal
value-decimal n = value-digits (suc n) n (omega arith)

AllDigits-IsPlain : (xs : Bytes) → AllDigits xs → IsPlain xs
AllDigits-IsPlain [] v = tt
AllDigits-IsPlain (x ∷ xs) v = (λ e. absurd (omega (arith, v.0, v.1, e)), AllDigits-IsPlain xs v.2)

pub decimal-IsPlain : (n : ℕ) → IsPlain (decimal n)
unfolding decimal
decimal-IsPlain n = AllDigits-IsPlain (decimal n) (digits-AllDigits (suc n) n)

pub decimal_ℤ-IsPlain : (z : ℤ) → IsPlain (decimal_ℤ z)
unfolding decimal_ℤ
decimal_ℤ-IsPlain (pos n) = decimal-IsPlain n
decimal_ℤ-IsPlain (negsuc n) = (λ e. absurd (omega (arith, e)), decimal-IsPlain (suc n))

read_ℤ-pos : (xs : Bytes) → AllDigits xs → read_ℤ xs ≡ pos (value 0 xs)
unfolding read_ℤ value
read_ℤ-pos [] v = refl
read_ℤ-pos (x ∷ xs) v = ground (arith, v.0)

pub read_ℤ-decimal_ℤ : (z : ℤ) → read_ℤ (decimal_ℤ z) ≡ z
unfolding decimal_ℤ decimal read_ℤ negate
read_ℤ-decimal_ℤ (pos n) =
    read_ℤ-pos (decimal n) (digits-AllDigits (suc n) n) ∙ ap pos (value-decimal n)
read_ℤ-decimal_ℤ (negsuc n) = ap negate (value-decimal (suc n))

==_ne : (a b : ℕ) → a ≢ b → (a == b) ≡ false
==_ne a b h = ground arith

pub split_colons-plain :
    (part xs rest : Bytes)
    → IsPlain xs
    → split_colons part (xs ++ (b':' ∷ rest)) ≡ (part ++ xs) ∷ split_colons [] rest
unfolding split_colons
split_colons-plain part [] rest v =
    ap (λ (p : Bytes). p ∷ split_colons [] rest) (sym (append-nil part))
split_colons-plain part (x ∷ xs) rest v = rw (==_ne x b':' v.0) (
    split_colons-plain (part ++ (x ∷ [])) xs rest v.1
    ∙ ap (λ (p : Bytes). p ∷ split_colons [] rest) (append_assoc part (x ∷ []) xs))

pub split_colons-last : (part xs : Bytes) → IsPlain xs → split_colons part xs ≡ (part ++ xs) ∷ []
unfolding split_colons
split_colons-last part [] v = ap (λ (p : Bytes). p ∷ []) (sym (append-nil part))
split_colons-last part (x ∷ xs) v = rw (==_ne x b':' v.0) (
    split_colons-last (part ++ (x ∷ [])) xs v.1
    ∙ ap (λ (p : Bytes). p ∷ []) (append_assoc part (x ∷ []) xs))
