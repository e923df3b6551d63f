-- ===== src/Grid/Vga.antt =====
-- `Writer` of kernel/src/vga_buffer.rs with the buffer that it writes to; a color code is its byte.
use kafka_os.Base.{
  ℕ, ◌+◌, ◌-◌, ◌*◌, ◌%◌, ◌<◌, ◌≤◌, ◌&&◌, ◌||◌, Option, none, some, List, [], ◌∷◌, ltb, leb, ◌==◌,
  if◌then◌else◌, replicate, ◌>>=◌, arith, Bool-cases, inl, inr,
}
use kafka_os.Grid.{put_cell, shift_up, IsGrid, put_cell-IsGrid, shift_up-IsGrid, blank-IsGrid}

abbrev pub buffer_height : ℕ
buffer_height = 25

abbrev pub buffer_width : ℕ
buffer_width = 80

pub record ScreenChar : Type 0 where
  pub ascii_character : ℕ
  pub color_code : ℕ

pub record Writer : Type 0 where
  pub column_position : ℕ
  pub color_code : ℕ
  pub chars : List (List ScreenChar)

-- `ColorCode::new` of two of the sixteen colors.
unfoldable pub color_code_of : ℕ → ℕ → ℕ
color_code_of foreground background = background * 16 % 256 + foreground

unfoldable pub set_color : ℕ → ℕ → Writer → Writer
set_color foreground background w = record w { color_code = color_code_of foreground background }

abbrev pub blank_of : Writer → ScreenChar
blank_of w = record { ascii_character = b' '; color_code = w.color_code }

-- The rows move up, and the last one is cleared.
unfoldable pub next_line : Writer → Writer
next_line w = record w { chars = shift_up buffer_width (blank_of w) w.chars; column_position = 0 }

unfoldable pub put_byte : ℕ → Writer → Option Writer
put_byte byte w = do
  chars ←
      put_cell w.chars (buffer_height - 1) w.column_position
        (record { ascii_character = byte; color_code = w.color_code })
  some (record w { chars = chars; column_position = w.column_position + 1 })

unfoldable pub step_back : Writer → Writer
step_back w =
    if ltb 0 w.column_position then record w { column_position = w.column_position - 1 } else w

unfoldable pub write_byte : ℕ → Writer → Option Writer
write_byte byte w =
    if byte == b'\n'
    then some (next_line w)
    else if byte == 8
    then some (step_back w)
    else put_byte byte (if leb buffer_width w.column_position then next_line w else w)

-- A byte that the screen shows, a newline or a backspace; any other is shown as a block.
unfoldable pub shown_byte : ℕ → ℕ
shown_byte byte =
    if (leb 32 byte && leb byte 126) || (byte == b'\n' || byte == 8) then byte else 254

unfoldable pub write_string : List ℕ → Writer → Option Writer
write_string [] w = some w
write_string (byte ∷ bytes) w = write_byte (shown_byte byte) w >>= write_string bytes

unfoldable pub clear_screen : Writer → Writer
clear_screen w = record w {
  chars = replicate buffer_height (replicate buffer_width (blank_of w));
  column_position = 0;
}

-- Twenty-five rows of 80 cells, and the column in the last row or just behind it.
pub record IsWriter (w : Writer) : Type 0 where
  pub grid : IsGrid buffer_height buffer_width w.chars
  pub column_le : w.column_position ≤ buffer_width

abbrev pub Shows : Option Writer → Type 0
Shows none = ⊥
Shows (some w) = IsWriter w

next_line-IsWriter : (w : Writer) → IsWriter w → IsWriter (next_line w)
unfolding next_line
next_line-IsWriter w v = record {
  grid = shift_up-IsGrid 24 buffer_width w.chars (blank_of w) v.grid;
  column_le = omega arith;
}

put_byte-IsWriter :
    (byte : ℕ) (w : Writer)
    → IsWriter w
    → w.column_position < buffer_width
    → Shows (put_byte byte w)
unfolding put_byte
put_byte-IsWriter byte w v room =
    let (chars, e, g) =
      put_cell-IsGrid buffer_height buffer_width 24 w.column_position w.chars
        (record { ascii_character = byte; color_code = w.color_code }) v.grid (omega arith) room in
    rw (e, ◌>>=◌) (record { grid = g; column_le = omega arith })

step_back-IsWriter : (w : Writer) → IsWriter w → IsWriter (step_back w)
unfolding step_back
step_back-IsWriter w v = elim (Bool-cases (ltb 0 w.column_position)) [
  | inl e ↦ rw e (record { grid = v.grid; column_le = omega (arith, v.column_le) })
  | inr e ↦ rw e v
]

wrapped :
    (w : Writer)
    → IsWriter w
    → IsWriter (if leb buffer_width w.column_position then next_line w else w)
      × ((if leb buffer_width w.column_position then next_line w else w).column_position
          < buffer_width)
unfolding next_line
wrapped w v = elim (Bool-cases (leb buffer_width w.column_position)) [
  | inl full ↦ (rw full (next_line-IsWriter w v), rw full (omega arith))
  | inr room ↦ (rw room v, rw room (ground arith))
]

write_byte-IsWriter : (byte : ℕ) (w : Writer) → IsWriter w → Shows (write_byte byte w)
unfolding write_byte
write_byte-IsWriter byte w v = elim (Bool-cases (byte == b'\n')) [
  | inl e ↦ rw e (next_line-IsWriter w v)
  | inr e ↦ elim (Bool-cases (byte == 8)) [
    | inl f ↦ rw (e, f) (step_back-IsWriter w v)
    | inr f ↦ rw (e, f) (put_byte-IsWriter byte _ (wrapped w v).0 (wrapped w v).1)
  ]
]

Shows-bind :
    (o : Option Writer) (f : Writer → Option Writer)
    → Shows o
    → ((w : Writer) → IsWriter w → Shows (f w))
    → Shows (o >>= f)
Shows-bind none f s k = s
Shows-bind (some w) f s k = k w s

-- Writing any text to a buffer of 25 rows of 80 cells, with the column at most at the end of the row, does
-- not index out of range, and leaves such a buffer and column.
pub write_string-IsWriter :
    (bytes : List ℕ) (w : Writer) → IsWriter w → Shows (write_string bytes w)
unfolding write_string
write_string-IsWriter [] w v = v
write_string-IsWriter (byte ∷ bytes) w v =
    Shows-bind (write_byte (shown_byte byte) w) (write_string bytes)
      (write_byte-IsWriter (shown_byte byte) w v) (λ u s. write_string-IsWriter bytes u s)

pub clear_screen-IsWriter : (w : Writer) → IsWriter (clear_screen w)
unfolding clear_screen
clear_screen-IsWriter w = record {
  grid = blank-IsGrid buffer_height buffer_width (blank_of w);
  column_le = omega arith;
}
