-- ===== src/Wfb/Signal/Bounds.antt =====
-- The figures that a snapshot shows are those of the frames counted since the last one.
use mathlib.Core.Path.{subst}
use native.Mathlib.Nat.{add-zero}
use open_ipc_mobile_gs.Prelude.{
  ℕ, zero, suc, ◌+◌, ◌^◌, ◌≤◌, ◌<◌, ◌≡◌, refl, sym, ap, ◌∙◌, if_split, false, List, [], ◌∷◌, length,
  min, arith, if◌then◌else◌,
}
use open_ipc_mobile_gs.Prelude.Int.{ℤ, ◌+ℤ◌, pos, pos_part, ◌≤ℤ◌}
use open_ipc_mobile_gs.Wfb.Signal.{
  min_ℤ, max_ℤ, PathAccumulator, FrameMeta, AntennaStat, empty_path, accumulate, accumulate_paths,
  accumulate_signal, reset_signal, int32_of, is_zero, antenna_stat, antenna_stats, take_signal,
}
use open_ipc_mobile_gs.Wfb.Signal.Average.{
  IsInt8, IsSum, average-IsSum, first-IsSum, next-IsSum, int32_of-IsSum,
}

abbrev pub AllInt8 : List ℤ → Type 0
AllInt8 [] = Unit
AllInt8 (x ∷ xs) = IsInt8 x × AllInt8 xs

-- The figures of the driver are 8-bit integers.
abbrev pub AreMetas : List FrameMeta → Type 0
AreMetas [] = Unit
AreMetas (m ∷ ms) = AllInt8 m.rssi × AllInt8 m.snr × AreMetas ms

abbrev pub accumulate_all : List PathAccumulator → List FrameMeta → List PathAccumulator
accumulate_all accs [] = accs
accumulate_all accs (m ∷ ms) = accumulate_all (accumulate_signal accs m) ms

-- A path that has counted so many frames at most. If it has counted any, its sums lie between what
-- the least and the greatest give; if not, its sums are those of the reset.
record IsPath (most : ℕ) (a : PathAccumulator) : Type 0 where
  pub frames : ℕ
  pub few : frames ≤ most
  pub counted : a.count ≡ pos frames
  pub rssi : 0 < frames → IsSum frames a.rssi_sum a.rssi_min a.rssi_max
  pub snr : 0 < frames → IsSum frames a.snr_sum a.snr_min a.snr_max
  pub rssi_reset : frames ≡ 0 → a.rssi_sum ≡ pos 0
  pub snr_reset : frames ≡ 0 → a.snr_sum ≡ pos 0

abbrev ArePaths : ℕ → List PathAccumulator → Type 0
ArePaths most [] = Unit
ArePaths most (a ∷ accs) = IsPath most a × ArePaths most accs

IsPath-more : (most : ℕ) (a : PathAccumulator) → IsPath most a → IsPath (most + 1) a
IsPath-more most a v = record {
  frames = v.frames;
  few = omega (arith, v.few);
  counted = v.counted;
  rssi = v.rssi;
  snr = v.snr;
  rssi_reset = v.rssi_reset;
  snr_reset = v.snr_reset;
}

ArePaths-more :
    (most : ℕ) (accs : List PathAccumulator) → ArePaths most accs → ArePaths (most + 1) accs
ArePaths-more most [] v = tt
ArePaths-more most (a ∷ accs) v = (IsPath-more most a v.0, ArePaths-more most accs v.1)

suc_nonzero : (n : ℕ) → is_zero (pos (suc n)) ≡ false
suc_nonzero n = ground arith

figure-IsSum :
    (c : ℕ) (sum lo hi x : ℤ)
    → IsInt8 x
    → (0 < c → IsSum c sum lo hi)
    → (c ≡ 0 → sum ≡ pos 0)
    → IsSum
        (c + 1)
        (sum +ℤ x)
        (if is_zero (pos c) then x else min_ℤ lo x)
        (if is_zero (pos c) then x else max_ℤ hi x)
figure-IsSum zero sum lo hi x h v new =
    subst (λ (t : ℤ). IsSum 1 (t +ℤ x) x x) (sym (new refl)) (first-IsSum x h)
figure-IsSum (suc n) sum lo hi x h v new =
    rw (suc_nonzero n) (next-IsSum (suc n) sum lo hi x h (v (omega arith)))

-- The same of the sum as it is kept, in 32 bits, and of the count as it was.
kept-IsSum :
    (count : ℤ) (c : ℕ) (sum lo hi x : ℤ)
    → count ≡ pos c
    → c + 1 < 2 ^ 24
    → IsInt8 x
    → (0 < c → IsSum c sum lo hi)
    → (c ≡ 0 → sum ≡ pos 0)
    → IsSum
        (c + 1)
        (int32_of (sum +ℤ x))
        (if is_zero count then x else min_ℤ lo x)
        (if is_zero count then x else max_ℤ hi x)
kept-IsSum count c sum lo hi x e small h v new =
    let next = figure-IsSum c sum lo hi x h v new in
    let same = int32_of-IsSum (c + 1) (sum +ℤ x) _ _ small next in rw (e, same) next

next_count : (n : ℕ) → n + 1 < 2 ^ 24 → int32_of (pos n +ℤ pos 1) ≡ pos (n + 1)
unfolding ◌+ℤ◌
next_count n h = ground arith

accumulate-IsPath :
    (most : ℕ) (a : PathAccumulator) (r s : ℤ)
    → most + 1 < 2 ^ 24
    → IsInt8 r
    → IsInt8 s
    → IsPath most a
    → IsPath (most + 1) (accumulate a r s)
unfolding accumulate
accumulate-IsPath most a r s few h k v =
    let n = v.frames in
    let small : n + 1 < 2 ^ 24 = omega (arith, v.few) in
    record {
      frames = n + 1;
      few = omega (arith, v.few);
      counted = ap (λ (c : ℤ). int32_of (c +ℤ pos 1)) v.counted ∙ next_count n small;
      rssi = λ more.
          kept-IsSum a.count n a.rssi_sum a.rssi_min a.rssi_max r v.counted small h v.rssi
            v.rssi_reset;
      snr = λ more.
          kept-IsSum a.count n a.snr_sum a.snr_min a.snr_max s v.counted small k v.snr v.snr_reset;
      rssi_reset = λ none. absurd (omega (arith, none));
      snr_reset = λ none. absurd (omega (arith, none));
    }

-- The antenna's averages lie between its extremes.
abbrev pub InBounds : AntennaStat → Type 0
InBounds s =
    ((s.rssi_min ≤ℤ s.rssi_avg) × (s.rssi_avg ≤ℤ s.rssi_max))
    × ((s.snr_min ≤ℤ s.snr_avg) × (s.snr_avg ≤ℤ s.snr_max))

abbrev pub AllInBounds : List AntennaStat → Type 0
AllInBounds [] = Unit
AllInBounds (s ∷ ss) = InBounds s × AllInBounds ss

positive : (n : ℕ) → is_zero (pos n) ≡ false → 0 < n
positive zero e = cc
positive (suc n) e = omega arith

antenna_stat-InBounds :
    (most i : ℕ) (a : PathAccumulator)
    → is_zero a.count ≡ false
    → IsPath most a
    → InBounds (antenna_stat i a)
unfolding antenna_stat
antenna_stat-InBounds most i a e v =
    let h = positive v.frames (sym (ap is_zero v.counted) ∙ e) in
    rw v.counted (
      average-IsSum v.frames a.rssi_sum a.rssi_min a.rssi_max h (v.rssi h),
      average-IsSum v.frames a.snr_sum a.snr_min a.snr_max h (v.snr h),
    )

accumulate_paths-ArePaths :
    (most n : ℕ) (accs : List PathAccumulator) (rs ss : List ℤ)
    → most + 1 < 2 ^ 24
    → AllInt8 rs
    → AllInt8 ss
    → ArePaths most accs
    → ArePaths (most + 1) (accumulate_paths n accs rs ss)
      × (length (accumulate_paths n accs rs ss) ≡ length accs)
unfolding accumulate_paths
accumulate_paths-ArePaths most zero accs rs ss few h k v = (ArePaths-more most accs v, refl)
accumulate_paths-ArePaths most (suc n) [] rs ss few h k v = (tt, refl)
accumulate_paths-ArePaths most (suc n) (a ∷ accs) [] ss few h k v =
    (ArePaths-more most (a ∷ accs) v, refl)
accumulate_paths-ArePaths most (suc n) (a ∷ accs) (r ∷ rs) [] few h k v =
    (ArePaths-more most (a ∷ accs) v, refl)
accumulate_paths-ArePaths most (suc n) (a ∷ accs) (r ∷ rs) (s ∷ ss) few h k v =
    let rest = accumulate_paths-ArePaths most n accs rs ss few h.1 k.1 v.1 in
    ((accumulate-IsPath most a r s few h.0 k.0 v.0, rest.0), ap suc rest.1)

accumulate_all-ArePaths :
    (most : ℕ) (accs : List PathAccumulator) (ms : List FrameMeta)
    → most + length ms < 2 ^ 24
    → AreMetas ms
    → ArePaths most accs
    → ArePaths (most + length ms) (accumulate_all accs ms)
      × (length (accumulate_all accs ms) ≡ length accs)
unfolding accumulate_signal
accumulate_all-ArePaths most accs [] few h v = (rw add-zero v, refl)
accumulate_all-ArePaths most accs (m ∷ ms) few h v =
    let paths = min (pos_part m.paths) 4 in
    let one = accumulate_paths-ArePaths most paths accs m.rssi m.snr (omega arith) h.0 h.1 v in
    let rest =
      accumulate_all-ArePaths (most + 1) (accumulate_signal accs m) ms (omega arith) h.2 one.0 in
    let all : most + 1 + length ms ≡ most + suc (length ms) = omega arith in
    (
      subst (λ n. ArePaths n (accumulate_all (accumulate_signal accs m) ms)) all rest.0,
      rest.1 ∙ one.1,
    )

-- The snapshot's entries, and how many there are.
record Shows (accs : List PathAccumulator) (stats : List AntennaStat) : Type 0 where
  pub bounds : AllInBounds stats
  pub few : length stats ≤ length accs

antenna_stats-Shows :
    (most i : ℕ) (accs : List PathAccumulator)
    → ArePaths most accs
    → Shows accs (antenna_stats i accs)
unfolding antenna_stats
antenna_stats-Shows most i [] v = record { bounds = tt; few = omega arith }
antenna_stats-Shows most i (a ∷ accs) v =
    let skipped = antenna_stats-Shows most i accs v.1 in
    let rest = antenna_stats-Shows most (i + 1) accs v.1 in
    if_split (Shows (a ∷ accs)) (is_zero a.count) _ _
      (λ e. record { bounds = skipped.bounds; few = omega (arith, skipped.few) })
      (λ e. record {
        bounds = (antenna_stat-InBounds most i a e v.0, rest.bounds);
        few = omega (arith, rest.few);
      })

empty_path-IsPath : IsPath 0 empty_path
empty_path-IsPath = record {
  frames = 0;
  few = omega arith;
  counted = refl;
  rssi = λ h. absurd (omega (arith, h));
  snr = λ h. absurd (omega (arith, h));
  rssi_reset = λ e. refl;
  snr_reset = λ e. refl;
}

-- Whatever frames were counted since the reset, fewer than 2^24 and with 8-bit figures, the snapshot
-- has at most four antennas, and of each the average RSSI and SNR lie between the least and the
-- greatest.
pub take_signal_bounds :
    (ms : List FrameMeta)
    → length ms < 2 ^ 24
    → AreMetas ms
    → AllInBounds (take_signal (accumulate_all reset_signal ms)).0.antennas
      × ((take_signal (accumulate_all reset_signal ms)).0.num_antennas ≤ 4)
unfolding take_signal
take_signal_bounds ms few h =
    let e = empty_path-IsPath in
    let all = accumulate_all-ArePaths 0 reset_signal ms (omega arith) h (e, (e, (e, (e, tt)))) in
    let shown = antenna_stats-Shows (0 + length ms) 0 (accumulate_all reset_signal ms) all.0 in
    (shown.bounds, omega (arith, shown.few, all.1))
