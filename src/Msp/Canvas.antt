-- ===== src/Msp/Canvas.antt =====
-- The OSD's character grid: `OsdCell`, `OsdFrame` (core/include/openipc/msp_osd.h), `SetCanvas`,
-- `Clear` and the loop of `kWriteString` (core/src/msp/displayport.cpp).
pub mod Cells
pub mod Text
use open_ipc_mobile_gs.Prelude.{
  ℕ, ◌+◌, ◌*◌, ◌%◌, Bool, ◌&&◌, ◌||◌, List, [], ◌∷◌, map, leb, ◌==◌, if◌then◌else◌, set, replicate,
  Bytes,
}
use open_ipc_mobile_gs.Prelude.Int.{ℤ, pos, negsuc}

pub record OsdCell : Type 0 where
  pub glyph : ℕ
  pub attributes : ℕ

-- `OsdCell{}`
abbrev pub blank : OsdCell
blank = record { glyph = 0; attributes = 0 }

-- Row-major; `at(row, col)` is the entry `row * cols + col`.
pub record OsdFrame : Type 0 where
  pub rows : ℕ
  pub cols : ℕ
  pub cells : List OsdCell

abbrev pub index_at : OsdFrame → ℕ → ℕ → ℕ
index_at f row col = row * f.cols + col

-- The arguments are signed; a canvas is only ever set to positive sizes.
unfoldable pub set_canvas : OsdFrame → ℤ → ℤ → OsdFrame
set_canvas f (negsuc r) cols = f
set_canvas f (pos r) (negsuc c) = f
set_canvas f (pos r) (pos c) =
    if r == 0 || c == 0
    then f
    else if f.rows == r && f.cols == c
    then f
    else record { rows = r; cols = c; cells = replicate (r * c) blank }

-- `Clear`: every cell is filled with a blank one.
unfoldable pub clear : OsdFrame → OsdFrame
clear f = record f { cells = map (λ c. blank) f.cells }

-- The page that the attribute's low bits select stands above the character's byte.
unfoldable pub cell_of : ℕ → ℕ → OsdCell
cell_of attribute char = record { glyph = char + attribute % 4 * 256; attributes = attribute }

unfoldable pub put : OsdFrame → ℕ → ℕ → OsdCell → OsdFrame
put f row col c = record f { cells = set f.cells (index_at f row col) c }

-- The loop over the characters; `col` is `target_col`.
unfoldable pub write_run : OsdFrame → ℕ → ℕ → ℕ → Bytes → OsdFrame
write_run f row col attribute [] = f
write_run f row col attribute (char ∷ chars) =
    let rest = write_run (put f row col (cell_of attribute char)) row (col + 1) attribute chars in
    if leb f.cols col then f else if char == 0 then f else rest

-- The whole of `kWriteString` behind the size check.
unfoldable pub write_string : OsdFrame → ℕ → ℕ → ℕ → Bytes → OsdFrame
write_string f row col attribute chars =
    let written = write_run f row col attribute chars in
    if leb f.rows row || leb f.cols col then f else written
