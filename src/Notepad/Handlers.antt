-- ===== src/Notepad/Handlers.antt =====
-- The keys of the editor: `handle_key` of kernel/src/gui/notepad.rs and what opens and closes the editor.
-- The window is not modelled. A key is what the decoder of the `pc_keyboard` crate makes of a scan code.
pub mod Files
pub mod Safety
use kafka_os.Base.{
  ℕ, ◌%◌, Bool, true, false, ◌&&◌, ◌||◌, not, Option, none, some, List, [], ◌∷◌, ◌++◌, ltb, leb,
  ◌==◌, if◌then◌else◌, length, ◌>>=◌,
}
use kafka_os.Fs.Overlay.{OverlayFileSystem}
use kafka_os.Notepad.{Mode, NotepadState, init, pop, undo, redo}
use kafka_os.Notepad.Edit.{
  insert_char, insert_newline, insert_tab, delete_selection, selecting, backspace, delete, copy,
  cut, paste,
}
use kafka_os.Notepad.FileIo.{save_file, open_file, new_file}
use kafka_os.Notepad.Keys.{
  select_all, move_left, move_right, move_up, move_down, move_home, move_end,
}

-- The codes that the handlers tell apart.
pub data KeyCode : Type 0 where
  arrow_left arrow_right arrow_up arrow_down home end delete_key escape other : KeyCode

pub data DecodedKey : Type 0 where
  unicode : ℕ → DecodedKey
  raw_key : KeyCode → DecodedKey

-- `c as u8` keeps the low byte of a character.
abbrev pub low_byte : ℕ → ℕ
low_byte c = c % 256

abbrev pub is_printable : ℕ → Bool
is_printable c = leb 32 (low_byte c) && leb (low_byte c) 126

abbrev either_key : ℕ → ℕ → ℕ → Bool
either_key ch lower upper = ch == lower || ch == upper

abbrev save_or_ask :
    NotepadState → OverlayFileSystem → Option (List ℕ) → NotepadState × OverlayFileSystem
save_or_ask s fs (some name) = save_file s fs
save_or_ask s fs none = (record s { mode = Mode.save_prompt; prompt_buf = [] }, fs)

-- A step that leaves the file system alone.
abbrev pub beside :
    OverlayFileSystem → Option NotepadState → Option (NotepadState × OverlayFileSystem)
beside fs none = none
beside fs (some s) = some (s, fs)

unfoldable pub shortcut :
    NotepadState → OverlayFileSystem → ℕ → Option (NotepadState × OverlayFileSystem)
shortcut s fs ch =
    if either_key ch b's' b'S'
    then some (save_or_ask s fs s.filename)
    else if either_key ch b'o' b'O'
    then some (record s { mode = Mode.open_prompt; prompt_buf = [] }, fs)
    else if either_key ch b'n' b'N'
    then some (new_file s, fs)
    else if either_key ch b'z' b'Z'
    then some (undo s, fs)
    else if either_key ch b'y' b'Y'
    then some (redo s, fs)
    else if either_key ch b'a' b'A'
    then some (select_all s, fs)
    else if either_key ch b'c' b'C'
    then some (copy s, fs)
    else if either_key ch b'x' b'X'
    then beside fs (cut s)
    else if either_key ch b'v' b'V'
    then beside fs (paste s)
    else some (s, fs)

abbrev pub unselected : NotepadState → Option NotepadState
unselected s = if selecting s then delete_selection s else some s

unfoldable pub type_key : NotepadState → ℕ → Option NotepadState
type_key s ch =
    if ch == b'\n'
    then unselected s >>= insert_newline
    else if ch == 8
    then backspace s
    else if ch == b'\t'
    then unselected s >>= insert_tab
    else if ch == 27
    then some s
    else if is_printable ch
    then unselected s >>= insert_char (low_byte ch)
    else some s

unfoldable pub raw_editing_key : NotepadState → KeyCode → Bool → Option NotepadState
raw_editing_key s KeyCode.arrow_left shift = some (move_left shift s)
raw_editing_key s KeyCode.arrow_right shift = some (move_right shift s)
raw_editing_key s KeyCode.arrow_up shift = some (move_up shift s)
raw_editing_key s KeyCode.arrow_down shift = some (move_down shift s)
raw_editing_key s KeyCode.home shift = some (move_home shift s)
raw_editing_key s KeyCode.end shift = some (move_end shift s)
raw_editing_key s KeyCode.delete_key shift = delete s
raw_editing_key s KeyCode.escape shift = some s
raw_editing_key s KeyCode.other shift = some s

unfoldable pub handle_editing_key :
    NotepadState
    → OverlayFileSystem
    → DecodedKey
    → Bool
    → Bool
    → Option (NotepadState × OverlayFileSystem)
handle_editing_key s fs (DecodedKey.unicode ch) ctrl shift =
    if ctrl then shortcut s fs ch else beside fs (type_key s ch)
handle_editing_key s fs (DecodedKey.raw_key code) ctrl shift =
    beside fs (raw_editing_key s code shift)

abbrev confirmed : Mode → NotepadState → OverlayFileSystem → NotepadState × OverlayFileSystem
confirmed Mode.save_prompt s fs = save_file s fs
confirmed Mode.open_prompt s fs = (open_file s fs, fs)
confirmed Mode.editing s fs = (s, fs)

abbrev pub leave_prompt : NotepadState → NotepadState
leave_prompt s = record s { mode = Mode.editing; prompt_buf = [] }

abbrev confirm : Mode → NotepadState → OverlayFileSystem → NotepadState × OverlayFileSystem
confirm mode s fs =
    if length s.prompt_buf == 0
    then (s, fs)
    else confirmed mode (record s { filename = some s.prompt_buf }) fs

-- `String::pop`.
abbrev pub without_last : Option (ℕ × List ℕ) → List ℕ
without_last none = []
without_last (some p) = p.1

unfoldable pub handle_prompt_key :
    NotepadState → OverlayFileSystem → DecodedKey → Mode → NotepadState × OverlayFileSystem
handle_prompt_key s fs (DecodedKey.unicode ch) mode =
    if ch == b'\n'
    then (let c = confirm mode s fs in (leave_prompt c.0, c.1))
    else if ch == 8
    then (record s { prompt_buf = without_last (pop s.prompt_buf) }, fs)
    else if ch == 27
    then (leave_prompt s, fs)
    else if is_printable ch
    then (record s { prompt_buf = s.prompt_buf ++ (ch ∷ []) }, fs)
    else (s, fs)
handle_prompt_key s fs (DecodedKey.raw_key KeyCode.escape) mode = (leave_prompt s, fs)
handle_prompt_key s fs (DecodedKey.raw_key code) mode = (s, fs)

-- The editor, whether it is open, and the files.
pub record Editor : Type 0 where
  pub active : Bool
  pub state : NotepadState
  pub files : OverlayFileSystem

abbrev pub of_mode :
    Mode
    → NotepadState
    → OverlayFileSystem
    → DecodedKey
    → Bool
    → Bool
    → Option (NotepadState × OverlayFileSystem)
of_mode Mode.save_prompt s fs key ctrl shift = some (handle_prompt_key s fs key Mode.save_prompt)
of_mode Mode.open_prompt s fs key ctrl shift = some (handle_prompt_key s fs key Mode.open_prompt)
of_mode Mode.editing s fs key ctrl shift = handle_editing_key s fs key ctrl shift

abbrev pub update : Editor → Option (NotepadState × OverlayFileSystem) → Option Editor
update e none = none
update e (some p) = some (record e { state = p.0; files = p.1 })

unfoldable pub handle_key : DecodedKey → Bool → Bool → Editor → Option Editor
handle_key key ctrl shift e =
    if not e.active then some e else update e (of_mode e.state.mode e.state e.files key ctrl shift)

unfoldable pub open_notepad : Editor → Editor
open_notepad e = if e.active then e else record e { active = true; state = init e.state }

unfoldable pub open_notepad_with_file : List ℕ → Editor → Editor
open_notepad_with_file filename e = if e.active then e else record e {
  active = true;
  state = open_file (record (init e.state) { filename = some filename }) e.files;
}

unfoldable pub close_notepad : Editor → Editor
close_notepad e = record e { active = false }
