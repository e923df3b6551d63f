-- ===== src/Notepad/Edit.antt =====
-- The editing methods of `NotepadState`, kernel/src/gui/notepad.rs.
pub mod Total
pub mod Undo
use kafka_os.Base.{
  ℕ, zero, suc, ◌+◌, ◌-◌, ◌≡◌, min, Bool, true, false, ◌&&◌, ◌||◌, not, Option, none, some, List,
  [], ◌∷◌, ◌++◌, ltb, leb, ◌==◌, if◌then◌else◌, length, take, drop, get_elem?, set, get_or, ◌>>=◌,
}
use mathlib.Core.Option
use kafka_os.Notepad.{
  Line, NotepadState, Selection, Span, ordered, is_empty, push_undo, clamp_cursor, ensure_visible,
  total_lines, shown, line_len,
}

-- `Vec::insert`, `Vec::remove` and `Vec::split_off` panic out of range.
module _ {ℓ} {A : Type ℓ} where
  unfoldable pub insert_at : List A → ℕ → A → Option (List A)
  insert_at xs zero a = some (a ∷ xs)
  insert_at [] (suc i) a = none
  insert_at (x ∷ xs) (suc i) a = Option.map (λ ys. x ∷ ys) (insert_at xs i a)

  unfoldable pub remove_at : List A → ℕ → Option (A × List A)
  remove_at [] i = none
  remove_at (x ∷ xs) zero = some (x, xs)
  remove_at (x ∷ xs) (suc i) = Option.map (λ r. (r.0, x ∷ r.1)) (remove_at xs i)

  unfoldable pub split_off : List A → ℕ → Option (List A × List A)
  split_off xs at = if leb at (length xs) then some (take at xs, drop at xs) else none

abbrev pub touched : NotepadState → NotepadState
touched s = record s { modified = true }

unfoldable pub insert_char : ℕ → NotepadState → Option NotepadState
insert_char ch s0 = do
  let s = push_undo s0
  line ← get_elem? s.lines s.cursor_row
  let col = min s.cursor_col (length line)
  longer ← insert_at line col ch
  some (
      ensure_visible
        (touched (record s { lines = set s.lines s.cursor_row longer; cursor_col = col + 1 })))

-- The line is cut at the cursor, and its rest goes to a new line below.
unfoldable pub break_line : NotepadState → Option NotepadState
break_line s = do
  line ← get_elem? s.lines s.cursor_row
  parts ← split_off line s.cursor_col
  lines ← insert_at (set s.lines s.cursor_row parts.0) (s.cursor_row + 1) parts.1
  some (record s { lines = lines; cursor_row = s.cursor_row + 1; cursor_col = 0 })

unfoldable pub insert_newline : NotepadState → Option NotepadState
insert_newline s = do broken ← break_line (push_undo s); some (ensure_visible (touched broken))

-- The lines that a selection leaves.
unfoldable pub delete_span : Span → List Line → Option (List Line)
delete_span p lines = do
  first ← get_elem? lines p.r1
  let last = get_or lines p.r2 []
  if p.r1 == p.r2
      then some (
          set lines p.r1
            (take (min p.c1 (length first)) first ++ drop (min p.c2 (length first)) first))
      else some (
          take p.r1 lines
          ++ (take p.c1 first ++ drop p.c2 last) ∷ drop (min (p.r2 + 1) (length lines)) lines)

abbrev pub erase : NotepadState → Option Selection → Option NotepadState
erase s none = some s
erase s (some sel) =
    if is_empty sel
    then some s
    else (let pushed = push_undo s in
        let p = ordered sel in
        delete_span p pushed.lines >>= λ lines.
        some (shown (record pushed { lines = lines; cursor_row = p.r1; cursor_col = p.c1 })))

unfoldable pub delete_selection : NotepadState → Option NotepadState
delete_selection s = erase (record s { selection = none }) s.selection

abbrev pub selecting : NotepadState → Bool
selecting s = elim s.selection [ none ↦ false | some sel ↦ true ]

unfoldable pub remove_left : NotepadState → Option NotepadState
remove_left s =
    if ltb 0 s.cursor_col
    then (do
      line ← get_elem? s.lines s.cursor_row
      cut ← remove_at line (s.cursor_col - 1)
      some (
          touched
            (record s { lines = set s.lines s.cursor_row cut.1; cursor_col = s.cursor_col - 1 })))
    else if ltb 0 s.cursor_row
    then (do
      cut ← remove_at s.lines s.cursor_row
      above ← get_elem? cut.1 (s.cursor_row - 1)
      some (
          touched (record s {
            lines = set cut.1 (s.cursor_row - 1) (above ++ cut.0);
            cursor_row = s.cursor_row - 1;
            cursor_col = length above;
          })))
    else some s

unfoldable pub backspace : NotepadState → Option NotepadState
backspace s =
    if selecting s
    then delete_selection s
    else (do left ← remove_left (push_undo s); some (ensure_visible left))

unfoldable pub remove_right : NotepadState → Option NotepadState
remove_right s = do
  line ← get_elem? s.lines s.cursor_row
  if ltb s.cursor_col (length line)
      then (do
        cut ← remove_at line s.cursor_col
        some (touched (record s { lines = set s.lines s.cursor_row cut.1 })))
      else if ltb (s.cursor_row + 1) (total_lines s)
      then (do
        cut ← remove_at s.lines (s.cursor_row + 1)
        some (touched (record s { lines = set cut.1 s.cursor_row (line ++ cut.0) })))
      else some s

unfoldable pub delete : NotepadState → Option NotepadState
delete s = if selecting s then delete_selection s else remove_right (push_undo s)

unfoldable pub insert_tab : NotepadState → Option NotepadState
insert_tab s = do
  s1 ← insert_char b' ' s
  s2 ← insert_char b' ' s1
  s3 ← insert_char b' ' s2
  insert_char b' ' s3

-- The rounds of the loop over the selected rows: `n` rows are left, from `r` on.
unfoldable pub selected_from : ℕ → ℕ → Span → List Line → List ℕ
selected_from zero r p lines = []
selected_from (suc n) r p lines =
    let rest = selected_from n (r + 1) p lines in
    let line = get_or lines r [] in
    let start = if r == p.r1 then min p.c1 (length line) else 0 in
    let end = if r == p.r2 then min p.c2 (length line) else length line in
    if leb (length lines) r
    then []
    else (if leb start end then take (end - start) (drop start line) else [])
      ++ ((if ltb r p.r2 then b'\n' ∷ [] else []) ++ rest)

abbrev selected : NotepadState → Option Selection → List ℕ
selected s none = []
selected s (some sel) =
    let p = ordered sel in
    if is_empty sel then [] else selected_from (p.r2 - p.r1 + 1) p.r1 p s.lines

unfoldable pub get_selected_text : NotepadState → List ℕ
unfolding selected_from
get_selected_text s = selected s s.selection

abbrev keep_old : List ℕ → List ℕ → List ℕ
keep_old [] old = old
keep_old (c ∷ text) old = c ∷ text

unfoldable pub copy : NotepadState → NotepadState
copy s = record s { clipboard = keep_old (get_selected_text s) s.clipboard }

unfoldable pub cut : NotepadState → Option NotepadState
cut s = delete_selection (copy s)

unfoldable pub put_byte : ℕ → NotepadState → Option NotepadState
put_byte byte s = do
  line ← get_elem? s.lines s.cursor_row
  longer ← insert_at line s.cursor_col byte
  some (record s { lines = set s.lines s.cursor_row longer; cursor_col = s.cursor_col + 1 })

unfoldable pub paste_bytes : List ℕ → NotepadState → Option NotepadState
paste_bytes [] s = some s
paste_bytes (byte ∷ clip) s =
    (if byte == b'\n' then break_line s else put_byte byte s) >>= paste_bytes clip

unfoldable pub paste : NotepadState → Option NotepadState
paste s = if length s.clipboard == 0 then some s else (do
  clear ← if selecting s then delete_selection s else some s
  pasted ← paste_bytes s.clipboard (push_undo clear)
  some (ensure_visible (touched pasted)))
