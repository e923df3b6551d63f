-- ===== src/Grid/Terminal.antt =====
-- `GuiTerminal` of kernel/src/gui/terminal.rs, without its drawing.
use kafka_os.Base.{
  ℕ, ◌+◌, ◌-◌, ◌<◌, ◌≤◌, Bool, true, false, Option, none, some, List, [], ◌∷◌, ltb, leb, ◌==◌,
  if◌then◌else◌, replicate, ◌>>=◌, arith, Bool-cases, inl, inr,
}
use kafka_os.Grid.{put_cell, shift_up, IsGrid, put_cell-IsGrid, shift_up-IsGrid, blank-IsGrid}

abbrev pub term_cols : ℕ
term_cols = 48

abbrev pub term_rows : ℕ
term_rows = 20

pub record TermCell : Type 0 where
  pub ch : ℕ
  pub fg : ℕ

abbrev pub color_green : ℕ
color_green = 0

abbrev pub blank : TermCell
blank = record { ch = b' '; fg = color_green }

pub record GuiTerminal : Type 0 where
  pub cells : List (List TermCell)
  pub col : ℕ
  pub row : ℕ
  pub fg : ℕ
  pub prev_row : ℕ
  pub needs_full_redraw : Bool
  pub needs_redraw : Bool

unfoldable pub new_terminal : GuiTerminal
new_terminal = record {
  cells = replicate term_rows (replicate term_cols blank);
  col = 0;
  row = 0;
  fg = color_green;
  prev_row = 0;
  needs_full_redraw = true;
  needs_redraw = false;
}

unfoldable pub set_fg : ℕ → GuiTerminal → GuiTerminal
set_fg color t = record t { fg = color }

unfoldable pub scroll_up : GuiTerminal → GuiTerminal
scroll_up t = record t { cells = shift_up term_cols blank t.cells; needs_full_redraw = true }

unfoldable pub new_line : GuiTerminal → GuiTerminal
new_line t =
    let start : GuiTerminal = record t { col = 0 } in
    if leb (term_rows - 1) t.row then scroll_up start else record start { row = t.row + 1 }

unfoldable pub backspace_cell : GuiTerminal → Option GuiTerminal
backspace_cell t =
    if ltb 0 t.col
    then (do
      cells ← put_cell t.cells t.row (t.col - 1) blank
      some (record t { cells = cells; col = t.col - 1 }))
    else some t

unfoldable pub put_char : ℕ → GuiTerminal → Option GuiTerminal
put_char byte t = do
  cells ← put_cell t.cells t.row t.col (record { ch = byte; fg = t.fg })
  some (record t { cells = cells; col = t.col + 1 })

unfoldable pub write_byte : ℕ → GuiTerminal → Option GuiTerminal
write_byte byte t =
    if byte == b'\n'
    then some (new_line t)
    else if byte == 8
    then backspace_cell t
    else put_char byte (if leb term_cols t.col then new_line t else t)

unfoldable pub clear : GuiTerminal → GuiTerminal
clear t = record t {
  cells = replicate term_rows (replicate term_cols blank);
  col = 0;
  row = 0;
  needs_full_redraw = true;
}

-- The bytes of a text, one after the other.
unfoldable pub write_bytes : List ℕ → GuiTerminal → Option GuiTerminal
write_bytes [] t = some t
write_bytes (byte ∷ bytes) t = write_byte byte t >>= write_bytes bytes

-- Twenty rows of 48 cells, and the cursor in one of them or just behind its last cell.
pub record IsTerminal (t : GuiTerminal) : Type 0 where
  pub grid : IsGrid term_rows term_cols t.cells
  pub row_lt : t.row < term_rows
  pub col_le : t.col ≤ term_cols

abbrev pub Writes : Option GuiTerminal → Type 0
Writes none = ⊥
Writes (some t) = IsTerminal t

new_line-IsTerminal : (t : GuiTerminal) → IsTerminal t → IsTerminal (new_line t)
unfolding new_line scroll_up
new_line-IsTerminal t v = elim (Bool-cases (leb (term_rows - 1) t.row)) [
  | inl last ↦ rw last (record {
    grid = shift_up-IsGrid 19 term_cols t.cells blank v.grid;
    row_lt = v.row_lt;
    col_le = omega arith;
  })
  | inr room ↦
      let below : t.row + 1 < term_rows = ground arith in
      rw room (record { grid = v.grid; row_lt = below; col_le = omega arith })
]

put_char-IsTerminal :
    (byte : ℕ) (t : GuiTerminal) → IsTerminal t → t.col < term_cols → Writes (put_char byte t)
unfolding put_char
put_char-IsTerminal byte t v room =
    let (cells, e, g) =
      put_cell-IsGrid term_rows term_cols t.row t.col t.cells (record { ch = byte; fg = t.fg })
        v.grid v.row_lt room in
    rw (e, ◌>>=◌) (record { grid = g; row_lt = v.row_lt; col_le = omega arith })

backspace_cell-IsTerminal : (t : GuiTerminal) → IsTerminal t → Writes (backspace_cell t)
unfolding backspace_cell
backspace_cell-IsTerminal t v = elim (Bool-cases (ltb 0 t.col)) [
  | inl some_left ↦
      let inside : t.col - 1 < term_cols = ground (arith, v.col_le) in
      let (cells, e, g) =
        put_cell-IsGrid term_rows term_cols t.row (t.col - 1) t.cells blank v.grid v.row_lt
          inside in
      rw some_left (rw (e, ◌>>=◌) (record { grid = g; row_lt = v.row_lt; col_le = omega arith }))
  | inr start ↦ rw start v
]

wrapped :
    (t : GuiTerminal)
    → IsTerminal t
    → IsTerminal (if leb term_cols t.col then new_line t else t)
      × ((if leb term_cols t.col then new_line t else t).col < term_cols)
unfolding new_line scroll_up
wrapped t v = elim (Bool-cases (leb term_cols t.col)) [
  | inl full ↦ (rw full (new_line-IsTerminal t v), rw full (ground arith))
  | inr room ↦ (rw room v, rw room (ground arith))
]

write_byte-IsTerminal : (byte : ℕ) (t : GuiTerminal) → IsTerminal t → Writes (write_byte byte t)
unfolding write_byte
write_byte-IsTerminal byte t v = elim (Bool-cases (byte == b'\n')) [
  | inl e ↦ rw e (new_line-IsTerminal t v)
  | inr e ↦ elim (Bool-cases (byte == 8)) [
    | inl f ↦ rw (e, f) (backspace_cell-IsTerminal t v)
    | inr f ↦ rw (e, f) (put_char-IsTerminal byte _ (wrapped t v).0 (wrapped t v).1)
  ]
]

Writes-bind :
    (o : Option GuiTerminal) (f : GuiTerminal → Option GuiTerminal)
    → Writes o
    → ((t : GuiTerminal) → IsTerminal t → Writes (f t))
    → Writes (o >>= f)
Writes-bind none f w k = w
Writes-bind (some t) f w k = k t w

write_bytes-IsTerminal :
    (bytes : List ℕ) (t : GuiTerminal) → IsTerminal t → Writes (write_bytes bytes t)
unfolding write_bytes
write_bytes-IsTerminal [] t v = v
write_bytes-IsTerminal (byte ∷ bytes) t v =
    Writes-bind (write_byte byte t) (write_bytes bytes) (write_byte-IsTerminal byte t v)
      (λ u w. write_bytes-IsTerminal bytes u w)

-- No text that is written to a new terminal panics: the writes stay in the grid of 20 rows of 48 cells,
-- also where lines wrap and the rows scroll, and the cursor stays in a row, at most behind its last cell.
pub write_bytes-new_terminal : (bytes : List ℕ) → Writes (write_bytes bytes new_terminal)
unfolding new_terminal
write_bytes-new_terminal bytes = write_bytes-IsTerminal bytes new_terminal (record {
  grid = blank-IsGrid term_rows term_cols blank;
  row_lt = omega arith;
  col_le = omega arith;
})
