-- ===== src/Msp/Canvas/Text.antt =====
-- Where the text of a `kWriteString` lands: cell by cell, against the run of its characters.
use open_ipc_mobile_gs.Prelude.{
  ℕ, suc, ◌+◌, ◌-◌, ◌*◌, ◌%◌, ◌<◌, ◌≡◌, ◌≢◌, sym, ap, ◌∙◌, true, false, ◌&&◌, ◌||◌, [], ◌∷◌, leb,
  ltb, ◌==◌, if◌then◌else◌, Bytes, arith, get_elem?, Option, none, some, get_elem?-set_self,
  get_elem?-set_ne, Bool-cases, inl, inr,
}
use native.Mathlib.Decide.{dec_lt, ℕ_discrete}
use open_ipc_mobile_gs.Msp.Canvas.{
  OsdCell, OsdFrame, index_at, cell_of, put, write_run, write_string,
}
use open_ipc_mobile_gs.Msp.Canvas.Cells.{IsGrid, index_inj, index_below, put-IsGrid}

abbrev pub cell_at : OsdFrame → ℕ → ℕ → Option OsdCell
cell_at f row col = get_elem? f.cells (index_at f row col)

-- The characters in front of the first NUL.
abbrev pub before_nul : Bytes → Bytes
before_nul [] = []
before_nul (c ∷ cs) = if c == 0 then [] else c ∷ before_nul cs

-- A cell under a character shows its glyph in the font page of the attribute's low two bits, with
-- 256 glyphs to a page, and keeps the attribute; any other cell stays.
abbrev pub overlay : ℕ → Option ℕ → Option OsdCell → Option OsdCell
overlay attribute none old = old
overlay attribute (some char) old =
    some (record { glyph = char + attribute % 4 * 256; attributes = attribute })

module _ (f : OsdFrame) (row col : ℕ) (new : OsdCell) (v : IsGrid f) (h : row < f.rows)
    (k : col < f.cols) (r c : ℕ) (j : c < f.cols) where
  put_same : r ≡ row → c ≡ col → cell_at (put f row col new) r c ≡ some new
  unfolding put
  put_same e e' =
      rw (e, e')
        (get_elem?-set_self f.cells (index_at f row col) new
          (rw v.full (index_below f.rows f.cols row col h k)))

  put_other : (r ≡ row → c ≡ col → ⊥) → cell_at (put f row col new) r c ≡ cell_at f r c
  unfolding put
  put_other ne =
      get_elem?-set_ne f.cells new
        (λ e. let same = index_inj f.cols row col r c k j e in ne (sym same.0) (sym same.1))

-- The text that the cell in column `c` of the row gets, if the run reaches it.
abbrev pub text_at : Bytes → ℕ → ℕ → Option ℕ
text_at chars col c = if leb col c then get_elem? (before_nul chars) (c - col) else none

abbrev expected : OsdFrame → ℕ → ℕ → ℕ → Bytes → ℕ → ℕ → Option OsdCell
expected f row col attribute chars r c =
    overlay attribute (if r == row then text_at chars col c else none) (cell_at f r c)

-- Behind a character that is written, the run goes on in the next column.
text_at-cons :
    (char : ℕ) (chars : Bytes) (col c : ℕ)
    → (char == 0) ≡ false
    → c ≢ col
    → text_at (char ∷ chars) col c ≡ text_at chars (col + 1) c
text_at-cons char chars col c n ne = elim (dec_lt c col) [
  | yes l ↦
      let here : leb col c ≡ false = ground arith in
      let next : leb (col + 1) c ≡ false = ground arith in rw (here, next)
  | no g ↦
      let here : leb col c ≡ true = ground arith in
      let next : leb (col + 1) c ≡ true = ground arith in
      let e : c - col ≡ suc (c - (col + 1)) = omega arith in rw (here, next, n, e)
]

expected_next :
    (f : OsdFrame) (row col attribute char : ℕ) (chars : Bytes) (r c : ℕ)
    → IsGrid f
    → row < f.rows
    → col < f.cols
    → c < f.cols
    → (char == 0) ≡ false
    → expected (put f row col (cell_of attribute char)) row (col + 1) attribute chars r c
      ≡ expected f row col attribute (char ∷ chars) r c
unfolding cell_of
expected_next f row col attribute char chars r c v h k j n = elim (ℕ_discrete r row) [
  | no ne ↦
      let other = put_other f row col (cell_of attribute char) v h k r c j (λ e _. ne e) in
      ground arith
  | yes e ↦ elim (ℕ_discrete c col) [
    | no ne ↦
        let other = put_other f row col (cell_of attribute char) v h k r c j (λ _ e'. ne e') in
        let next = text_at-cons char chars col c n ne in rw (other, next)
    | yes e' ↦
        let same = put_same f row col (cell_of attribute char) v h k r c j e e' in
        let first : c - col ≡ 0 = omega arith in rw (same, n, first) (ground arith)
  ]
]

module _ (f : OsdFrame) (row col attribute char : ℕ) (chars : Bytes) where
  write_run_edge : leb f.cols col ≡ true → write_run f row col attribute (char ∷ chars) ≡ f
  unfolding write_run
  write_run_edge e = rw e

  write_run_nul : (char == 0) ≡ true → write_run f row col attribute (char ∷ chars) ≡ f
  unfolding write_run
  write_run_nul e = ground arith

  write_run_next :
      leb f.cols col ≡ false
      → (char == 0) ≡ false
      → write_run f row col attribute (char ∷ chars)
        ≡ write_run (put f row col (cell_of attribute char)) row (col + 1) attribute chars
  unfolding write_run
  write_run_next e n = rw (e, n)

write_run-cell_at :
    (f : OsdFrame) (row col attribute : ℕ) (chars : Bytes) (r c : ℕ)
    → IsGrid f
    → row < f.rows
    → c < f.cols
    → get_elem? (write_run f row col attribute chars).cells (r * f.cols + c)
      ≡ expected f row col attribute chars r c
unfolding write_run put
write_run-cell_at f row col attribute [] r c v h j = ground arith
write_run-cell_at f row col attribute (char ∷ chars) r c v h j =
    let read = λ (g : OsdFrame). get_elem? g.cells (r * f.cols + c) in
    elim (Bool-cases (leb f.cols col)) [
      | inl stop ↦
          let out : leb col c ≡ false = ground arith in
          ap read (write_run_edge f row col attribute char chars stop) ∙ rw out (ground arith)
      | inr go ↦ elim (Bool-cases (char == 0)) [
        | inl nul ↦
            ap read (write_run_nul f row col attribute char chars nul) ∙ rw nul (ground arith)
        | inr more ↦
            ap read (write_run_next f row col attribute char chars go more)
            ∙ write_run-cell_at (put f row col (cell_of attribute char)) row (col + 1) attribute
                chars r c (put-IsGrid f row col (cell_of attribute char) v) h j
            ∙ expected_next f row col attribute char chars r c v h (ground arith) j more
      ]
    ]

-- A string that starts on the canvas changes the cells of its row that its characters reach, up
-- to the first NUL or the right edge, each to its character with the attribute's page; every
-- other cell of the canvas stays. A string that starts outside changes nothing.
pub write_string-cell_at :
    (f : OsdFrame) (row col attribute : ℕ) (chars : Bytes) (r c : ℕ)
    → IsGrid f
    → c < f.cols
    → get_elem? (write_string f row col attribute chars).cells (r * f.cols + c) ≡ (
        if ltb row f.rows && ltb col f.cols
        then overlay attribute (if r == row then text_at chars col c else none) (cell_at f r c)
        else cell_at f r c)
unfolding write_string
write_string-cell_at f row col attribute chars r c v j = elim (dec_lt row f.rows) [
  | no g ↦ ground arith
  | yes h ↦ elim (dec_lt col f.cols) [
    | no g ↦ ground arith
    | yes k ↦
        let inside : (leb f.rows row || leb f.cols col) ≡ false = ground arith in
        let inside' : (ltb row f.rows && ltb col f.cols) ≡ true = ground arith in
        rw (inside, inside') (write_run-cell_at f row col attribute chars r c v h j)
  ]
]
