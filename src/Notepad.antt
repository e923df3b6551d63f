-- ===== src/Notepad.antt =====
-- The text editor: `NotepadState` of kernel/src/gui/notepad.rs, without its drawing. A line is the list of
-- its bytes. A method that may index out of range returns an `Option`: `none` is a kernel panic. Row
-- and column numbers are lengths of lists in memory, so that adding one does not wrap.
pub mod Edit
pub mod FileIo
pub mod Keys
pub mod Session
pub mod Handlers
mod Tests
use kafka_os.Base.{
  ℕ, zero, suc, ◌+◌, ◌-◌, ◌≡◌, min, Bool, true, false, ◌&&◌, ◌||◌, Option, none, some, List, [],
  ◌∷◌, ◌++◌, ltb, leb, ◌==◌, if◌then◌else◌, length, take, drop, get_elem?, set, get_or, ◌>>=◌,
}

abbrev pub Line : Type 0
Line = List ℕ

abbrev pub visible_rows : ℕ
visible_rows = 30

abbrev pub visible_cols : ℕ
visible_cols = 67

abbrev pub max_undo : ℕ
max_undo = 50

pub data Mode : Type 0 where
  editing save_prompt open_prompt : Mode

pub record Selection : Type 0 where
  pub start_row : ℕ
  pub start_col : ℕ
  pub end_row : ℕ
  pub end_col : ℕ

-- Where a selection begins and ends, in document order.
pub record Span : Type 0 where
  pub r1 : ℕ
  pub c1 : ℕ
  pub r2 : ℕ
  pub c2 : ℕ

unfoldable pub ordered : Selection → Span
ordered s =
    if ltb s.start_row s.end_row || (s.start_row == s.end_row && leb s.start_col s.end_col)
    then record { r1 = s.start_row; c1 = s.start_col; r2 = s.end_row; c2 = s.end_col }
    else record { r1 = s.end_row; c1 = s.end_col; r2 = s.start_row; c2 = s.start_col }

abbrev pub is_empty : Selection → Bool
is_empty s = s.start_row == s.end_row && s.start_col == s.end_col

pub record Snapshot : Type 0 where
  pub lines : List Line
  pub cursor_row : ℕ
  pub cursor_col : ℕ

pub record NotepadState : Type 0 where
  pub lines : List Line
  pub cursor_row : ℕ
  pub cursor_col : ℕ
  pub scroll_row : ℕ
  pub scroll_col : ℕ
  pub selection : Option Selection
  pub clipboard : List ℕ
  pub mode : Mode
  pub prompt_buf : List ℕ
  pub filename : Option (List ℕ)
  pub modified : Bool
  -- The last element is the top of the stack.
  pub undo_stack : List Snapshot
  pub redo_stack : List Snapshot

unfoldable pub new : NotepadState
new = record {
  lines = [];
  cursor_row = 0;
  cursor_col = 0;
  scroll_row = 0;
  scroll_col = 0;
  selection = none;
  clipboard = [];
  mode = Mode.editing;
  prompt_buf = [];
  filename = none;
  modified = false;
  undo_stack = [];
  redo_stack = [];
}

unfoldable pub init : NotepadState → NotepadState
init s = record s {
  lines = [] ∷ [];
  cursor_row = 0;
  cursor_col = 0;
  scroll_row = 0;
  scroll_col = 0;
  selection = none;
  mode = Mode.editing;
  prompt_buf = [];
  filename = none;
  modified = false;
  undo_stack = [];
  redo_stack = [];
}

abbrev pub snapshot : NotepadState → Snapshot
snapshot s = record { lines = s.lines; cursor_row = s.cursor_row; cursor_col = s.cursor_col }

-- `Vec::pop`: the last element and what is left.
unfoldable pub pop {ℓ} : {A : Type ℓ} → List A → Option (A × List A)
pop [] = none
pop (x ∷ xs) = elim (pop xs) [ none ↦ some (x, []) | some (y, ys) ↦ some (y, x ∷ ys) ]

-- The oldest snapshot goes where there are fifty.
unfoldable pub push_undo : NotepadState → NotepadState
push_undo s = record s {
  undo_stack =
      (if leb max_undo (length s.undo_stack) then drop 1 s.undo_stack else s.undo_stack)
      ++ snapshot s ∷ [];
  redo_stack = [];
}

unfoldable pub line_len : NotepadState → ℕ → ℕ
line_len s row = length (get_or s.lines row [])

abbrev pub total_lines : NotepadState → ℕ
total_lines s = length s.lines

unfoldable pub clamp_cursor : NotepadState → NotepadState
unfolding line_len
clamp_cursor s =
    let row = if leb (total_lines s) s.cursor_row then total_lines s - 1 else s.cursor_row in
    record s { cursor_row = row; cursor_col = min s.cursor_col (line_len s row) }

-- The first visible row or column, for a cursor and a window of the given size.
abbrev scroll_to : ℕ → ℕ → ℕ → ℕ
scroll_to cursor scroll size =
    let upper = if ltb cursor scroll then cursor else scroll in
    if leb (upper + size) cursor then cursor - size + 1 else upper

unfoldable pub ensure_visible : NotepadState → NotepadState
ensure_visible s = record s {
  scroll_row = scroll_to s.cursor_row s.scroll_row visible_rows;
  scroll_col = scroll_to s.cursor_col s.scroll_col visible_cols;
}

abbrev pub restore : NotepadState → Snapshot → NotepadState
restore s snap = record s {
  lines = snap.lines;
  cursor_row = snap.cursor_row;
  cursor_col = snap.cursor_col;
}

abbrev pub shown : NotepadState → NotepadState
shown s = record (ensure_visible (clamp_cursor s)) { modified = true }

unfoldable pub undo : NotepadState → NotepadState
undo s = elim (pop s.undo_stack) [
  | none ↦ s
  | some (snap, rest) ↦
      shown (
        restore (record s { undo_stack = rest; redo_stack = s.redo_stack ++ snapshot s ∷ [] }) snap)
]

unfoldable pub redo : NotepadState → NotepadState
redo s = elim (pop s.redo_stack) [
  | none ↦ s
  | some (snap, rest) ↦
      shown (
        restore (record s { redo_stack = rest; undo_stack = s.undo_stack ++ snapshot s ∷ [] }) snap)
]
