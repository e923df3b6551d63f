-- ===== src/Notepad/Handlers/Safety.antt =====
-- Sequences of keys that kernel/src/gui/notepad.rs handles without a panic.
use kafka_os.Base.{
  ℕ, ◌≡◌, refl, ap, Bool, true, false, ◌&&◌, ◌||◌, not, Option, none, some, List, [], ◌∷◌, ◌==◌,
  if◌then◌else◌, length, ◌>>=◌, arith,
}
use kafka_os.Fs.Overlay.{OverlayFileSystem}
use kafka_os.Notepad.{Mode, NotepadState, Selection, init}
use kafka_os.Notepad.Edit.{
  erase, delete_selection, copy, cut, paste, insert_char, insert_newline, insert_tab,
}
use kafka_os.Notepad.Edit.Total.{Returns, Returns-bind}
use kafka_os.Notepad.Session.{Key, press, IsReady, press-IsReady, not_selecting}
use kafka_os.Notepad.Handlers.{
  KeyCode, DecodedKey, Editor, beside, unselected, shortcut, type_key, raw_editing_key,
  handle_editing_key, handle_prompt_key, confirm, confirmed, save_or_ask, either_key, low_byte,
  is_printable, of_mode, update, handle_key, open_notepad_with_file,
}
use kafka_os.Notepad.Handlers.Files.{
  with_mode, with_name, new_file-IsReady, save_file-IsReady, open_file-IsReady,
}

abbrev IsReadyPair : NotepadState × OverlayFileSystem → Type 0
IsReadyPair p = IsReady p.0

abbrev pub IsReadyEditor : Editor → Type 0
IsReadyEditor e = IsReady e.state

beside-IsReady :
    (fs : OverlayFileSystem) (o : Option NotepadState)
    → Returns IsReady o
    → Returns IsReadyPair (beside fs o)
beside-IsReady fs none h = h
beside-IsReady fs (some s) h = h

unselected_same : (s : NotepadState) → IsReady s → unselected s ≡ some s
unselected_same s r =
    ap (λ (b : Bool). if b then delete_selection s else some s) (not_selecting s r)

unselected-IsReady :
    (s : NotepadState) (f : NotepadState → Option NotepadState)
    → IsReady s
    → Returns IsReady (f s)
    → Returns IsReady (unselected s >>= f)
unselected-IsReady s f r h = rw (unselected_same s r) h

if-Returns :
    (b : Bool) (x y : Option NotepadState)
    → Returns IsReady x
    → Returns IsReady y
    → Returns IsReady (if b then x else y)
if-Returns true x y h k = h
if-Returns false x y h k = k

type_key-IsReady : (s : NotepadState) (ch : ℕ) → IsReady s → Returns IsReady (type_key s ch)
unfolding type_key press
type_key-IsReady s ch r =
    if-Returns (ch == b'\n') _ _
      (unselected-IsReady s insert_newline r (press-IsReady Key.newline s r))
      (if-Returns (ch == 8) _ _ (press-IsReady Key.backspace_key s r) (
        if-Returns (ch == b'\t') _ _ (unselected-IsReady s insert_tab r (press-IsReady Key.tab s r))
          (if-Returns (ch == 27) (some s) _ r (
            if-Returns (is_printable ch) _ (some s)
              (unselected-IsReady s (insert_char (low_byte ch)) r
                (press-IsReady (Key.char (low_byte ch)) s r))
              r))))

raw_editing_key-IsReady :
    (s : NotepadState) (code : KeyCode) → IsReady s → Returns IsReady (raw_editing_key s code false)
unfolding raw_editing_key press
raw_editing_key-IsReady s KeyCode.arrow_left r = press-IsReady Key.left s r
raw_editing_key-IsReady s KeyCode.arrow_right r = press-IsReady Key.right s r
raw_editing_key-IsReady s KeyCode.arrow_up r = press-IsReady Key.up s r
raw_editing_key-IsReady s KeyCode.arrow_down r = press-IsReady Key.down s r
raw_editing_key-IsReady s KeyCode.home r = press-IsReady Key.home s r
raw_editing_key-IsReady s KeyCode.end r = press-IsReady Key.end s r
raw_editing_key-IsReady s KeyCode.delete_key r = press-IsReady Key.delete_key s r
raw_editing_key-IsReady s KeyCode.escape r = r
raw_editing_key-IsReady s KeyCode.other r = r

nothing_selected : (s : NotepadState) → IsReady s → Returns IsReady (delete_selection s)
unfolding delete_selection
nothing_selected s r =
    rw (ap (λ (o : Option Selection). erase (record s { selection = none }) o) r.clear) (record {
      valid = record { line = r.valid.line; here = r.valid.here; within = r.valid.within };
      clear = refl;
    })

either_first :
    (b : Bool) (x y : NotepadState × OverlayFileSystem)
    → IsReady x.0
    → IsReady y.0
    → IsReady (if b then x else y).0
either_first true x y h k = h
either_first false x y h k = k

if-Pair :
    (b : Bool) (x y : Option (NotepadState × OverlayFileSystem))
    → Returns IsReadyPair x
    → Returns IsReadyPair y
    → Returns IsReadyPair (if b then x else y)
if-Pair true x y h k = h
if-Pair false x y h k = k

otherwise-Pair :
    (b : Bool) (x y : Option (NotepadState × OverlayFileSystem))
    → b ≡ false
    → Returns IsReadyPair y
    → Returns IsReadyPair (if b then x else y)
otherwise-Pair true x y e h = cc
otherwise-Pair false x y e h = h

save_or_ask-IsReady :
    (s : NotepadState) (fs : OverlayFileSystem) (name : Option (List ℕ))
    → IsReady s
    → IsReady (save_or_ask s fs name).0
save_or_ask-IsReady s fs none r = with_mode s Mode.save_prompt [] r
save_or_ask-IsReady s fs (some name) r = save_file-IsReady s fs r

copy-IsReady : (s : NotepadState) → IsReady s → IsReady (copy s)
unfolding copy
copy-IsReady s r = record {
  valid = record { line = r.valid.line; here = r.valid.here; within = r.valid.within };
  clear = r.clear;
}

cut-IsReady : (s : NotepadState) → IsReady s → Returns IsReady (cut s)
unfolding cut
cut-IsReady s r = nothing_selected (copy s) (copy-IsReady s r)

-- The shortcuts that restore or select text.
abbrev pub is_undo_or_select : ℕ → Bool
is_undo_or_select ch =
    either_key ch b'z' b'Z' || (either_key ch b'y' b'Y' || either_key ch b'a' b'A')

shortcut-IsReady :
    (s : NotepadState) (fs : OverlayFileSystem) (ch : ℕ)
    → IsReady s
    → is_undo_or_select ch ≡ false
    → Returns IsReadyPair (shortcut s fs ch)
unfolding shortcut press
shortcut-IsReady s fs ch r h =
    if-Pair (either_key ch b's' b'S') _ _ (save_or_ask-IsReady s fs s.filename r) (
      if-Pair (either_key ch b'o' b'O') _ _ (with_mode s Mode.open_prompt [] r) (
        if-Pair (either_key ch b'n' b'N') _ _ (new_file-IsReady s) (
          otherwise-Pair (either_key ch b'z' b'Z') _ _ (ground arith) (
            otherwise-Pair (either_key ch b'y' b'Y') _ _ (ground arith) (
              otherwise-Pair (either_key ch b'a' b'A') _ _ (ground arith) (
                if-Pair (either_key ch b'c' b'C') _ _ (copy-IsReady s r) (
                  if-Pair (either_key ch b'x' b'X') _ _
                    (beside-IsReady fs (cut s) (cut-IsReady s r))
                    (if-Pair (either_key ch b'v' b'V') _ _
                      (beside-IsReady fs (paste s) (press-IsReady Key.paste_key s r)) r))))))))

confirmed-IsReady :
    (mode : Mode) (s : NotepadState) (fs : OverlayFileSystem)
    → IsReady s
    → IsReady (confirmed mode s fs).0
confirmed-IsReady Mode.save_prompt s fs r = save_file-IsReady s fs r
confirmed-IsReady Mode.open_prompt s fs r = open_file-IsReady s fs r
confirmed-IsReady Mode.editing s fs r = r

confirm-IsReady :
    (mode : Mode) (s : NotepadState) (fs : OverlayFileSystem)
    → IsReady s
    → IsReady (confirm mode s fs).0
confirm-IsReady mode s fs r =
    either_first (length s.prompt_buf == 0) (s, fs) _ r
      (confirmed-IsReady mode (record s { filename = some s.prompt_buf }) fs
        (with_name s (some s.prompt_buf) s.modified r))

handle_prompt_key-IsReady :
    (s : NotepadState) (fs : OverlayFileSystem) (key : DecodedKey) (mode : Mode)
    → IsReady s
    → IsReady (handle_prompt_key s fs key mode).0
unfolding handle_prompt_key
handle_prompt_key-IsReady s fs (DecodedKey.unicode ch) mode r =
    either_first (ch == b'\n') _ _
      (let c = confirm mode s fs in with_mode c.0 Mode.editing [] (confirm-IsReady mode s fs r))
      (either_first (ch == 8) _ _ (with_mode s s.mode _ r) (
        either_first (ch == 27) _ _ (with_mode s Mode.editing [] r)
          (either_first (is_printable ch) _ (s, fs) (with_mode s s.mode _ r) r)))
handle_prompt_key-IsReady s fs (DecodedKey.raw_key KeyCode.escape) mode r =
    with_mode s Mode.editing [] r
handle_prompt_key-IsReady s fs (DecodedKey.raw_key KeyCode.arrow_left) mode r = r
handle_prompt_key-IsReady s fs (DecodedKey.raw_key KeyCode.arrow_right) mode r = r
handle_prompt_key-IsReady s fs (DecodedKey.raw_key KeyCode.arrow_up) mode r = r
handle_prompt_key-IsReady s fs (DecodedKey.raw_key KeyCode.arrow_down) mode r = r
handle_prompt_key-IsReady s fs (DecodedKey.raw_key KeyCode.home) mode r = r
handle_prompt_key-IsReady s fs (DecodedKey.raw_key KeyCode.end) mode r = r
handle_prompt_key-IsReady s fs (DecodedKey.raw_key KeyCode.delete_key) mode r = r
handle_prompt_key-IsReady s fs (DecodedKey.raw_key KeyCode.other) mode r = r

-- A key, and whether control is held; shift is not.
pub record Stroke : Type 0 where
  pub key : DecodedKey
  pub ctrl : Bool

abbrev pub is_plain : Stroke → Bool
is_plain k = elim k.key [
  | DecodedKey.unicode ch ↦ not (k.ctrl && is_undo_or_select ch)
  | DecodedKey.raw_key code ↦ true
]

abbrev pub ArePlain : List Stroke → Type 0
ArePlain [] = Unit {0}
ArePlain (k ∷ ks) = (is_plain k ≡ true) × ArePlain ks

editing-IsReady :
    (s : NotepadState) (fs : OverlayFileSystem) (key : DecodedKey) (ctrl : Bool)
    → is_plain (record { key = key; ctrl = ctrl }) ≡ true
    → IsReady s
    → Returns IsReadyPair (handle_editing_key s fs key ctrl false)
unfolding handle_editing_key
editing-IsReady s fs (DecodedKey.unicode ch) true h r = shortcut-IsReady s fs ch r (ground arith)
editing-IsReady s fs (DecodedKey.unicode ch) false h r =
    beside-IsReady fs (type_key s ch) (type_key-IsReady s ch r)
editing-IsReady s fs (DecodedKey.raw_key code) ctrl h r =
    beside-IsReady fs (raw_editing_key s code false) (raw_editing_key-IsReady s code r)

of_mode-IsReady :
    (mode : Mode) (s : NotepadState) (fs : OverlayFileSystem) (key : DecodedKey) (ctrl : Bool)
    → is_plain (record { key = key; ctrl = ctrl }) ≡ true
    → IsReady s
    → Returns IsReadyPair (of_mode mode s fs key ctrl false)
of_mode-IsReady Mode.save_prompt s fs key ctrl h r =
    handle_prompt_key-IsReady s fs key Mode.save_prompt r
of_mode-IsReady Mode.open_prompt s fs key ctrl h r =
    handle_prompt_key-IsReady s fs key Mode.open_prompt r
of_mode-IsReady Mode.editing s fs key ctrl h r = editing-IsReady s fs key ctrl h r

update-IsReady :
    (e : Editor) (o : Option (NotepadState × OverlayFileSystem))
    → Returns IsReadyPair o
    → Returns IsReadyEditor (update e o)
update-IsReady e none h = h
update-IsReady e (some p) h = h

handle_key-IsReady :
    (k : Stroke) (e : Editor)
    → is_plain k ≡ true
    → IsReadyEditor e
    → Returns IsReadyEditor (handle_key k.key k.ctrl false e)
unfolding handle_key
handle_key-IsReady k e h r =
    if-Editor (not e.active) (some e) _ r
      (update-IsReady e _ (of_mode-IsReady e.state.mode e.state e.files k.key k.ctrl h r))
  where
    if-Editor :
        (b : Bool) (x y : Option Editor)
        → Returns IsReadyEditor x
        → Returns IsReadyEditor y
        → Returns IsReadyEditor (if b then x else y)
    if-Editor true x y h k = h
    if-Editor false x y h k = k

unfoldable pub strokes : List Stroke → Editor → Option Editor
strokes [] e = some e
strokes (k ∷ ks) e = handle_key k.key k.ctrl false e >>= strokes ks

strokes-IsReady :
    (ks : List Stroke) (e : Editor)
    → ArePlain ks
    → IsReadyEditor e
    → Returns IsReadyEditor (strokes ks e)
unfolding strokes
strokes-IsReady [] e h r = r
strokes-IsReady (k ∷ ks) e (hk, h) r =
    Returns-bind IsReadyEditor IsReadyEditor (handle_key k.key k.ctrl false e) (strokes ks)
      (handle_key-IsReady k e hk r) (λ f q. strokes-IsReady ks f h q)

-- No sequence of keys without shift and without the shortcuts of undo, redo and select all panics in an
-- editor that was opened on a file of any name, whatever files there are: typing, deleting, moving, copying
-- and pasting, saving, opening and the prompts for a name keep the cursor in a line of the text, at most at
-- its end, with nothing selected.
pub strokes-open_notepad_with_file :
    (name : List ℕ) (e : Editor) (ks : List Stroke)
    → e.active ≡ false
    → ArePlain ks
    → Returns IsReadyEditor (strokes ks (open_notepad_with_file name e))
unfolding open_notepad_with_file init
strokes-open_notepad_with_file name e ks closed h =
    strokes-IsReady ks (open_notepad_with_file name e) h (
      rw closed (
        open_file-IsReady (record (init e.state) { filename = some name }) e.files
          (record {
            valid = record { line = []; here = refl; within = omega arith };
            clear = refl;
          })))
