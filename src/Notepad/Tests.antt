-- ===== src/Notepad/Tests.antt =====
-- Short texts in the editor of kernel/src/gui/notepad.rs.
use kafka_os.Base.{◌≡◌, refl, true, false, none, some, List, [], ◌∷◌, arith}
use kafka_os.Notepad.{NotepadState, Mode, undo, redo}
use kafka_os.Notepad.Edit.{insert_char}
use kafka_os.Notepad.Edit.Total.{IsValid, Returns}
use kafka_os.Notepad.Edit.Undo.{undo-insert_char}
use kafka_os.Notepad.FileIo.{open_file, save_file, open_file-save_file}
use kafka_os.Notepad.Handlers.{KeyCode, DecodedKey, Editor, open_notepad_with_file}
use kafka_os.Notepad.Handlers.Safety.{
  IsReadyEditor, Stroke, strokes, strokes-open_notepad_with_file,
}
use kafka_os.Fs.Overlay
use kafka_os.Fs.Overlay.{OverlayFileSystem}

-- Two lines, the cursor at the end of the first; the name of the file is `a`.
abbrev two_lines : NotepadState
two_lines = record {
  lines = (b'h' ∷ b'i' ∷ []) ∷ (b'o' ∷ []) ∷ [];
  cursor_row = 0;
  cursor_col = 2;
  scroll_row = 0;
  scroll_col = 0;
  selection = none;
  clipboard = b'x' ∷ b'\n' ∷ [];
  mode = Mode.editing;
  prompt_buf = [];
  filename = some (b'a' ∷ []);
  modified = true;
  undo_stack = [];
  redo_stack = [];
}

two_lines-IsValid : IsValid two_lines
two_lines-IsValid = record { line = b'h' ∷ b'i' ∷ []; here = refl; within = omega arith }

-- The editor before it is opened, over no files.
abbrev closed_editor : Editor
closed_editor = record { active = false; state = two_lines; files = Overlay.new [] }

-- A letter, a line end, an arrow, the shortcut that asks for a name, the name, and its confirmation.
abbrev session : List Stroke
session =
    record { key = DecodedKey.unicode b'a'; ctrl = false }
    ∷ record { key = DecodedKey.unicode b'\n'; ctrl = false }
    ∷ record { key = DecodedKey.raw_key KeyCode.arrow_up; ctrl = false }
    ∷ record { key = DecodedKey.unicode b'o'; ctrl = true }
    ∷ record { key = DecodedKey.unicode b'f'; ctrl = false }
    ∷ record { key = DecodedKey.unicode b'\n'; ctrl = false }
    ∷ []

strokes-open_notepad_with_file_example :
    Returns IsReadyEditor (strokes session (open_notepad_with_file (b'a' ∷ []) closed_editor))
strokes-open_notepad_with_file_example =
    strokes-open_notepad_with_file (b'a' ∷ []) closed_editor session refl
      (refl, (refl, (refl, (refl, (refl, (refl, tt))))))

undo-insert_char_example :
    (t : NotepadState) × (insert_char b'!' two_lines ≡ some t)
    × ((undo t).lines ≡ two_lines.lines)
    × ((undo t).cursor_row ≡ 0)
    × ((undo t).cursor_col ≡ 2)
    × ((redo (undo t)).lines ≡ t.lines)
undo-insert_char_example = undo-insert_char b'!' two_lines two_lines-IsValid

open_file-save_file_example :
    (open_file two_lines (save_file two_lines (Overlay.new [])).1).lines ≡ two_lines.lines
open_file-save_file_example =
    open_file-save_file two_lines two_lines (Overlay.new []) (b'a' ∷ []) (b'h' ∷ b'i' ∷ [])
      ((b'o' ∷ []) ∷ []) refl refl refl ((refl, (refl, tt)), ((refl, tt), tt))
