-- ===== src/Msp/Checksum/Detection.antt =====
-- Both checksums tell apart any two messages that differ in one byte.
use open_ipc_mobile_gs.Prelude.{
  ℕ, zero, suc, ◌+◌, ◌/◌, ◌<◌, ◌≡◌, ◌≢◌, Bool, true, false, ◌⊎◌, inl, inr, ◌&&◌, [], ◌∷◌, ◌++◌,
  refl, sym, ap, ◌∙◌, if◌then◌else◌, bit_xor, bit_set, Bytes, arith, ltb, ◌==◌, ==_iff, IsBytes,
  ltb→lt,
}
use open_ipc_mobile_gs.Msp.Checksum.{crc_turn, crc_turns, crc8_dvb_s2, crc_over, xor_over}

if_true : (a b : Bool) → (if a then b else false) ≡ true → (a ≡ true) × (b ≡ true)
if_true a b h = ground arith

lt_or_eq : (m n : ℕ) → m < suc n → (m < n) ⊎ (m ≡ n)
lt_or_eq m n h = omega arith

-- A table of the values under a limit, which the kernel runs through.
holds_below : ℕ → (ℕ → Bool) → Bool
holds_below zero test = true
holds_below (suc top) test = if test top then holds_below top test else false

holds_below-lt :
    (limit value : ℕ) (test : ℕ → Bool)
    → value < limit
    → holds_below limit test ≡ true
    → test value ≡ true
unfolding holds_below
holds_below-lt zero value test h table = absurd (omega arith)
holds_below-lt (suc top) value test h table = elim (lt_or_eq value top h) [
  | inl below ↦ holds_below-lt top value test below (if_true _ _ table).1
  | inr here ↦ ap test here ∙ (if_true _ _ table).0
]

-- A turn backwards: the low bit of the result says whether the polynomial was added.
turn_back : ℕ → ℕ
turn_back x = if bit_set x 1 then bit_xor x 0xd5 / 2 + 128 else x / 2

turn_table : holds_below 256 (λ x. turn_back (crc_turn x) == x && ltb (crc_turn x) 256) ≡ true
unfolding holds_below turn_back crc_turn
turn_table = refl

xor_table :
    holds_below 256
      (λ c. holds_below 256 (λ x. bit_xor c (bit_xor c x) == x && ltb (bit_xor c x) 256))
    ≡ true
unfolding holds_below
xor_table = refl

xor_commutes : holds_below 256 (λ c. holds_below 256 (λ x. bit_xor c x == bit_xor x c)) ≡ true
unfolding holds_below
xor_commutes = refl

and_left : (a b : Bool) → (a && b) ≡ true → (a ≡ true) × (b ≡ true)
and_left a b h = ground arith

xor_byte : (c x : ℕ) → c < 256 → x < 256 → (bit_xor c (bit_xor c x) ≡ x) × (bit_xor c x < 256)
xor_byte c x h k =
    let row = holds_below-lt 256 c _ h xor_table in
    let cell = and_left _ _ (holds_below-lt 256 x _ k row) in
    ((==_iff _ _).0 cell.0, ltb→lt _ _ cell.1)

xor_comm : (c x : ℕ) → c < 256 → x < 256 → bit_xor c x ≡ bit_xor x c
xor_comm c x h k = (==_iff _ _).0 (holds_below-lt 256 x _ k (holds_below-lt 256 c _ h xor_commutes))

xor_injective : (c x y : ℕ) → c < 256 → x < 256 → y < 256 → bit_xor c x ≡ bit_xor c y → x ≡ y
xor_injective c x y h k l e = sym (xor_byte c x h k).0 ∙ ap (bit_xor c) e ∙ (xor_byte c y h l).0

turn_byte : (x : ℕ) → x < 256 → (turn_back (crc_turn x) ≡ x) × (crc_turn x < 256)
turn_byte x h =
    let cell = and_left _ _ (holds_below-lt 256 x _ h turn_table) in
    ((==_iff _ _).0 cell.0, ltb→lt _ _ cell.1)

turns_byte : (n x : ℕ) → x < 256 → crc_turns n x < 256
turns_byte zero x h = h
turns_byte (suc n) x h = turns_byte n (crc_turn x) (turn_byte x h).1

turns_injective : (n x y : ℕ) → x < 256 → y < 256 → crc_turns n x ≡ crc_turns n y → x ≡ y
turns_injective zero x y h k e = e
turns_injective (suc n) x y h k e =
    let step = turns_injective n (crc_turn x) (crc_turn y) (turn_byte x h).1 (turn_byte y k).1 e in
    sym (turn_byte x h).0 ∙ ap turn_back step ∙ (turn_byte y k).0

-- A checksum step over bytes that is one-to-one in either argument.
record IsStep (step : ℕ → ℕ → ℕ) : Type 0 where
  stays : (c x : ℕ) → c < 256 → x < 256 → step c x < 256
  by_byte : (c x y : ℕ) → c < 256 → x < 256 → y < 256 → step c x ≡ step c y → x ≡ y
  by_state : (c d x : ℕ) → c < 256 → d < 256 → x < 256 → step c x ≡ step d x → c ≡ d

xor-IsStep : IsStep bit_xor
xor-IsStep = record {
  stays = λ c x h k. (xor_byte c x h k).1;
  by_byte = xor_injective;
  by_state =
      λ c d x h k l e. xor_injective x c d l h k (sym (xor_comm c x h l) ∙ e ∙ xor_comm d x k l);
}

crc-IsStep : IsStep crc8_dvb_s2
unfolding crc8_dvb_s2
crc-IsStep = record {
  stays = λ c x h k. turns_byte 8 (bit_xor c x) (xor_byte c x h k).1;
  by_byte = λ c x y h k l e.
      xor_injective c x y h k l (turns_injective 8 _ _ (xor_byte c x h k).1 (xor_byte c y h l).1 e);
  by_state = λ c d x h k l e.
      xor-IsStep.by_state c d x h k l
        (turns_injective 8 _ _ (xor_byte c x h l).1 (xor_byte d x k l).1 e);
}

over : (ℕ → ℕ → ℕ) → ℕ → Bytes → ℕ
over step c [] = c
over step c (b ∷ bs) = over step (step c b) bs

module _ (step : ℕ → ℕ → ℕ) (s : IsStep step) where
  over_state :
      (bs : Bytes) (c d : ℕ)
      → IsBytes bs
      → c < 256
      → d < 256
      → over step c bs ≡ over step d bs
      → c ≡ d
  unfolding over
  over_state [] c d h k l e = e
  over_state (b ∷ bs) c d h k l e =
      s.by_state c d b k l h.0
        (over_state bs (step c b) (step d b) h.1 (s.stays c b k h.0) (s.stays d b l h.0) e)

  over_differs :
      (front back : Bytes) (x y c : ℕ)
      → IsBytes front
      → IsBytes back
      → c < 256
      → x < 256
      → y < 256
      → over step c (front ++ (x ∷ back)) ≡ over step c (front ++ (y ∷ back))
      → x ≡ y
  unfolding over
  over_differs [] back x y c f b h k l e =
      s.by_byte c x y h k l
        (over_state back (step c x) (step c y) b (s.stays c x h k) (s.stays c y h l) e)
  over_differs (a ∷ front) back x y c f b h k l e =
      over_differs front back x y (step c a) f.1 b (s.stays c a h f.0) k l e

crc_is_over : (c : ℕ) (bs : Bytes) → crc_over c bs ≡ over crc8_dvb_s2 c bs
unfolding over
crc_is_over c [] = refl
crc_is_over c (b ∷ bs) = crc_is_over (crc8_dvb_s2 c b) bs

xor_is_over : (c : ℕ) (bs : Bytes) → xor_over c bs ≡ over bit_xor c bs
unfolding over
xor_is_over c [] = refl
xor_is_over c (b ∷ bs) = xor_is_over (bit_xor c b) bs

-- Two byte strings that differ in exactly one byte have different checksums, both by the CRC-8 of
-- MSP v2 and by the XOR of MSP v1, from any starting value: one corrupted byte is always noticed.
pub checksum_differs :
    (front back : Bytes) (x y c : ℕ)
    → IsBytes front
    → IsBytes back
    → c < 256
    → x < 256
    → y < 256
    → x ≢ y
    → (crc_over c (front ++ (x ∷ back)) ≢ crc_over c (front ++ (y ∷ back)))
      × (xor_over c (front ++ (x ∷ back)) ≢ xor_over c (front ++ (y ∷ back)))
checksum_differs front back x y c f b h k l ne = (
  (λ e. ne (
      over_differs crc8_dvb_s2 crc-IsStep front back x y c f b h k l
        (sym (crc_is_over c (front ++ (x ∷ back))) ∙ e ∙ crc_is_over c (front ++ (y ∷ back))))),
  (λ e. ne (
      over_differs bit_xor xor-IsStep front back x y c f b h k l
        (sym (xor_is_over c (front ++ (x ∷ back))) ∙ e ∙ xor_is_over c (front ++ (y ∷ back))))),
)
