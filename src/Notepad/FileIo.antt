-- ===== src/Notepad/FileIo.antt =====
-- The file operations of kernel/src/gui/notepad.rs over the file system, which is taken to be initialised.
use kafka_os.Base.{
  ℕ, ◌≡◌, ◌∙◌, refl, ap, false, Option, none, some, List, [], ◌∷◌, ◌++◌, ◌==◌, if◌then◌else◌,
}
use kafka_os.BTreeMap.{eqb_refl, text_key}
use kafka_os.Fs.Overlay.{OverlayFileSystem, Name, write_file, read_file, read_slice}
use kafka_os.Fs.Overlay.Files.{read_slice-write_file}
use kafka_os.Notepad.{Line, NotepadState, push_undo}

-- The content that is saved: the lines with a newline between any two.
unfoldable pub content_of : List Line → List ℕ
content_of [] = []
content_of (line ∷ []) = line
content_of (line ∷ next ∷ lines) = line ++ b'\n' ∷ content_of (next ∷ lines)

unfoldable pub save_file : NotepadState → OverlayFileSystem → NotepadState × OverlayFileSystem
save_file s fs = elim s.filename [
  | none ↦ (s, fs)
  | some name ↦ (record s { modified = false }, write_file fs name (content_of s.lines))
]

-- The loop over the bytes that are left, and the push after it.
unfoldable pub lines_from : List ℕ → Line → List Line
lines_from [] current_line = current_line ∷ []
lines_from (byte ∷ data_left) current_line =
    let ended = lines_from data_left [] in
    let longer = lines_from data_left (current_line ++ byte ∷ []) in
    if byte == b'\n' then current_line ∷ ended else longer

unfoldable pub loaded : NotepadState → List ℕ → NotepadState
loaded s bytes = record s {
  lines = lines_from bytes [];
  cursor_row = 0;
  cursor_col = 0;
  scroll_row = 0;
  scroll_col = 0;
  selection = none;
  modified = false;
  undo_stack = [];
  redo_stack = [];
}

abbrev pub load : NotepadState → Option (List ℕ) → NotepadState
load s none = s
load s (some bytes) = loaded s bytes

unfoldable pub open_file : NotepadState → OverlayFileSystem → NotepadState
open_file s fs = elim s.filename [ none ↦ s | some name ↦ load s (read_file fs name) ]

unfoldable pub new_file : NotepadState → NotepadState
new_file s0 =
    let s = push_undo s0 in
    record s {
      lines = [] ∷ [];
      cursor_row = 0;
      cursor_col = 0;
      scroll_row = 0;
      scroll_col = 0;
      selection = none;
      filename = none;
      modified = false;
      undo_stack = [];
      redo_stack = [];
    }

-- No byte of the line is a newline.
abbrev pub IsLine : Line → Type 0
IsLine [] = Unit
IsLine (byte ∷ line) = (byte == b'\n' ≡ false) × IsLine line

abbrev pub AreLines : List Line → Type 0
AreLines [] = Unit
AreLines (line ∷ lines) = IsLine line × AreLines lines

append_nil : (xs : List ℕ) → xs ≡ xs ++ []
append_nil [] = refl
append_nil (x ∷ xs) = ap (◌∷◌ x) (append_nil xs)

append_byte : (xs : List ℕ) (byte : ℕ) (ys : List ℕ) → (xs ++ byte ∷ []) ++ ys ≡ xs ++ byte ∷ ys
append_byte [] byte ys = refl
append_byte (x ∷ xs) byte ys = ap (◌∷◌ x) (append_byte xs byte ys)

lines_from-line :
    (line rest : List ℕ) (current : Line)
    → IsLine line
    → lines_from (line ++ b'\n' ∷ rest) current ≡ (current ++ line) ∷ lines_from rest []
unfolding lines_from
lines_from-line [] rest current h = ap (λ (l : Line). l ∷ lines_from rest []) (append_nil current)
lines_from-line (byte ∷ line) rest current (plain, h) = rw plain (
    lines_from-line line rest (current ++ byte ∷ []) h
    ∙ ap (λ (l : Line). l ∷ lines_from rest []) (append_byte current byte line))

lines_from-last :
    (line : List ℕ) (current : Line)
    → IsLine line
    → lines_from line current ≡ (current ++ line) ∷ []
unfolding lines_from
lines_from-last [] current h = ap (λ (l : Line). l ∷ []) (append_nil current)
lines_from-last (byte ∷ line) current (plain, h) = rw plain (
    lines_from-last line (current ++ byte ∷ []) h
    ∙ ap (λ (l : Line). l ∷ []) (append_byte current byte line))

pub lines_from-content_of :
    (line : Line) (lines : List Line)
    → AreLines (line ∷ lines)
    → lines_from (content_of (line ∷ lines)) [] ≡ line ∷ lines
unfolding content_of
lines_from-content_of line [] (h, _) = lines_from-last line [] h
lines_from-content_of line (next ∷ lines) (h, hs) =
    lines_from-line line (content_of (next ∷ lines)) [] h
    ∙ ap (◌∷◌ line) (lines_from-content_of next lines hs)

-- A text that is saved under a name, and opened by that name in any editor, is the text again, where no
-- byte of a line is a newline and there is a line.
pub open_file-save_file :
    (s reader : NotepadState) (fs : OverlayFileSystem) (name : Name) (line : Line)
    (lines : List Line)
    → s.filename ≡ some name
    → reader.filename ≡ some name
    → s.lines ≡ line ∷ lines
    → AreLines (line ∷ lines)
    → (open_file reader (save_file s fs).1).lines ≡ s.lines
unfolding open_file save_file loaded read_file
open_file-save_file s reader fs name line lines named opened text plain =
    let saved : read_slice (write_file fs name (content_of (line ∷ lines))) name
        ≡ some (content_of (line ∷ lines)) =
      read_slice-write_file fs name name (content_of (line ∷ lines)) ∙ rw (eqb_refl name) in
    rw (named, opened, text) (rw saved (lines_from-content_of line lines plain))
