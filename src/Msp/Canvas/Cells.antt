-- ===== src/Msp/Canvas/Cells.antt =====
-- What the canvas operations do to each cell.
use open_ipc_mobile_gs.Prelude.{
  ℕ, ◌+◌, ◌*◌, ◌≤◌, ◌<◌, ◌≡◌, ap, ◌∙◌, [], ◌∷◌, Bytes, arith, length, length-set, length-replicate,
  length-map,
}
use native.Mathlib.Decide.{dec_lt}
use open_ipc_mobile_gs.Prelude.Int.{ℤ, pos, negsuc}
use open_ipc_mobile_gs.Msp.Canvas.{
  OsdCell, blank, OsdFrame, index_at, set_canvas, clear, cell_of, put, write_run, write_string,
}

row_below : (n a c : ℕ) → a < c → a * n + n ≤ c * n
row_below n a c h = grind arith

-- Row-major order names each cell once.
pub index_inj : (n a b c d : ℕ) → b < n → d < n → a * n + b ≡ c * n + d → (a ≡ c) × (b ≡ d)
index_inj n a b c d h k e = elim (dec_lt a c) [
  | yes l ↦ absurd (omega (arith, row_below n a c l))
  | no g ↦ elim (dec_lt c a) [
    | yes l ↦ absurd (omega (arith, row_below n c a l))
    | no g' ↦ let same : a ≡ c = omega arith in (same, omega (arith, ap (λ (x : ℕ). x * n) same))
  ]
]

pub index_below : (rows n a b : ℕ) → a < rows → b < n → a * n + b < rows * n
index_below rows n a b h k = grind arith

-- The grid has as many cells as rows times columns, and at least one.
pub record IsGrid (f : OsdFrame) : Type 0 where
  pub has_rows : 0 < f.rows
  pub has_cols : 0 < f.cols
  pub full : length f.cells ≡ f.rows * f.cols

pub set_canvas-IsGrid : (f : OsdFrame) (rows cols : ℤ) → IsGrid f → IsGrid (set_canvas f rows cols)
unfolding set_canvas
set_canvas-IsGrid f (negsuc r) cols v = v
set_canvas-IsGrid f (pos r) (negsuc c) v = v
set_canvas-IsGrid f (pos r) (pos c) v = ground (arith, length-replicate (r * c) blank)

pub clear-IsGrid : (f : OsdFrame) → IsGrid f → IsGrid (clear f)
unfolding clear
clear-IsGrid f v = record {
  has_rows = v.has_rows;
  has_cols = v.has_cols;
  full = length-map f.cells (λ c. blank) ∙ v.full;
}

pub put-IsGrid : (f : OsdFrame) (row col : ℕ) (c : OsdCell) → IsGrid f → IsGrid (put f row col c)
unfolding put
put-IsGrid f row col c v = record {
  has_rows = v.has_rows;
  has_cols = v.has_cols;
  full = length-set f.cells (index_at f row col) c ∙ v.full;
}

write_run-IsGrid :
    (f : OsdFrame) (row col attribute : ℕ) (chars : Bytes)
    → IsGrid f
    → IsGrid (write_run f row col attribute chars)
unfolding write_run
write_run-IsGrid f row col attribute [] v = v
write_run-IsGrid f row col attribute (char ∷ chars) v =
    let g = put f row col (cell_of attribute char) in
    let rest = write_run-IsGrid g row (col + 1) attribute chars (put-IsGrid f row col _ v) in
    ground (arith, rest)

pub write_string-IsGrid :
    (f : OsdFrame) (row col attribute : ℕ) (chars : Bytes)
    → IsGrid f
    → IsGrid (write_string f row col attribute chars)
unfolding write_string
write_string-IsGrid f row col attribute chars v =
    ground (arith, write_run-IsGrid f row col attribute chars v)
