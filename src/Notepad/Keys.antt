-- ===== src/Notepad/Keys.antt =====
-- The selection and the cursor movements of kernel/src/gui/notepad.rs. `shift` tells whether the key is
-- held.
use kafka_os.Base.{◌+◌, ◌-◌, Bool, Option, none, some, ltb, if◌then◌else◌}
use mathlib.Core.Option
use kafka_os.Notepad.{NotepadState, Selection, clamp_cursor, ensure_visible, total_lines, line_len}

abbrev selection_from : NotepadState → Option Selection → Selection
selection_from s (some sel) = sel
selection_from s none = record {
  start_row = s.cursor_row;
  start_col = s.cursor_col;
  end_row = s.cursor_row;
  end_col = s.cursor_col;
}

unfoldable pub start_or_extend_selection : Bool → NotepadState → NotepadState
start_or_extend_selection shift s = record s {
  selection = if shift then some (selection_from s s.selection) else none;
}

unfoldable pub update_selection_end : NotepadState → NotepadState
update_selection_end s = record s {
  selection =
      Option.map
        (λ (sel : Selection). record sel { end_row = s.cursor_row; end_col = s.cursor_col })
        s.selection;
}

unfoldable pub select_all : NotepadState → NotepadState
select_all s =
    let last_row = total_lines s - 1 in
    let last_col = line_len s last_row in
    ensure_visible (record s {
      selection =
          some (record { start_row = 0; start_col = 0; end_row = last_row; end_col = last_col });
      cursor_row = last_row;
      cursor_col = last_col;
    })

-- What the movements share: the selection starts before the cursor moves, and ends where it stops.
abbrev moved : (NotepadState → NotepadState) → Bool → NotepadState → NotepadState
moved go shift s = update_selection_end (ensure_visible (go (start_or_extend_selection shift s)))

unfoldable pub go_left : NotepadState → NotepadState
go_left s =
    if ltb 0 s.cursor_col
    then record s { cursor_col = s.cursor_col - 1 }
    else if ltb 0 s.cursor_row
    then record s { cursor_row = s.cursor_row - 1; cursor_col = line_len s (s.cursor_row - 1) }
    else s

unfoldable pub move_left : Bool → NotepadState → NotepadState
move_left shift s = moved go_left shift s

unfoldable pub go_right : NotepadState → NotepadState
go_right s =
    if ltb s.cursor_col (line_len s s.cursor_row)
    then record s { cursor_col = s.cursor_col + 1 }
    else if ltb (s.cursor_row + 1) (total_lines s)
    then record s { cursor_row = s.cursor_row + 1; cursor_col = 0 }
    else s

unfoldable pub move_right : Bool → NotepadState → NotepadState
move_right shift s = moved go_right shift s

unfoldable pub go_up : NotepadState → NotepadState
go_up s =
    if ltb 0 s.cursor_row then clamp_cursor (record s { cursor_row = s.cursor_row - 1 }) else s

unfoldable pub move_up : Bool → NotepadState → NotepadState
move_up shift s = moved go_up shift s

unfoldable pub go_down : NotepadState → NotepadState
go_down s =
    if ltb (s.cursor_row + 1) (total_lines s)
    then clamp_cursor (record s { cursor_row = s.cursor_row + 1 })
    else s

unfoldable pub move_down : Bool → NotepadState → NotepadState
move_down shift s = moved go_down shift s

unfoldable pub move_home : Bool → NotepadState → NotepadState
move_home shift s = moved (λ s1. record s1 { cursor_col = 0 }) shift s

unfoldable pub move_end : Bool → NotepadState → NotepadState
move_end shift s = moved (λ s1. record s1 { cursor_col = line_len s1 s1.cursor_row }) shift s
