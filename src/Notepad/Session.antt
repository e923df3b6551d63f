-- ===== src/Notepad/Session.antt =====
-- A sequence of edits and cursor movements without a selection, from kernel/src/gui/notepad.rs.
use kafka_os.Base.{
  ℕ, ◌+◌, ◌-◌, ◌≡◌, ◌≤◌, ◌<◌, ◌∙◌, refl, ap, Bool, true, false, Option, none, some, List, [], ◌∷◌,
  ltb, leb, ◌==◌, if◌then◌else◌, length, get_elem?, ◌>>=◌, arith, ltb→lt,
}
use kafka_os.Notepad.{
  NotepadState, Line, Selection, push_undo, clamp_cursor, ensure_visible, total_lines, line_len,
  init,
}
use kafka_os.Notepad.Edit.{
  insert_char, insert_newline, delete_selection, selecting, remove_left, backspace, delete,
  insert_tab, paste_bytes, paste, touched,
}
use kafka_os.Notepad.Edit.Total.{
  get_or-get, IsValid, Returns, Returns-bind, Kept, insert_char-Kept, insert_newline-Kept,
  remove_left-Kept, remove_right-Kept, paste_bytes-Kept, push_undo-IsValid, ensure_visible-Kept,
  touched-Kept, get_elem?_lt, get_elem?-length,
}
use kafka_os.Notepad.Keys.{
  go_left, go_right, go_up, go_down, move_left, move_right, move_up, move_down, move_home, move_end,
  start_or_extend_selection, update_selection_end,
}

-- The keys of an editing session; a movement is made without shift.
pub data Key : Type 0 where
  char : ℕ → Key
  newline tab backspace_key delete_key paste_key left right up down home end : Key

unfoldable pub press : Key → NotepadState → Option NotepadState
press (Key.char c) s = insert_char c s
press Key.newline s = insert_newline s
press Key.tab s = insert_tab s
press Key.backspace_key s = backspace s
press Key.delete_key s = delete s
press Key.paste_key s = paste s
press Key.left s = some (move_left false s)
press Key.right s = some (move_right false s)
press Key.up s = some (move_up false s)
press Key.down s = some (move_down false s)
press Key.home s = some (move_home false s)
press Key.end s = some (move_end false s)

unfoldable pub press_all : List Key → NotepadState → Option NotepadState
press_all [] s = some s
press_all (k ∷ ks) s = press k s >>= press_all ks

-- The cursor is in the text, and nothing is selected.
pub record IsReady (s : NotepadState) : Type 0 where
  pub valid : IsValid s
  pub clear : s.selection ≡ none

from_Kept : (s t : NotepadState) → IsReady s → Kept (push_undo s) t → IsReady t
unfolding push_undo
from_Kept s t r k = record { valid = k.valid; clear = k.chosen ∙ r.clear }

from_Kept-all :
    (s : NotepadState) (o : Option NotepadState)
    → IsReady s
    → Returns (Kept (push_undo s)) o
    → Returns IsReady o
from_Kept-all s none r h = h
from_Kept-all s (some t) r h = from_Kept s t r h

insert_char-IsReady : (c : ℕ) (s : NotepadState) → IsReady s → Returns IsReady (insert_char c s)
insert_char-IsReady c s r = from_Kept-all s (insert_char c s) r (insert_char-Kept c s r.valid)

insert_tab-IsReady : (s : NotepadState) → IsReady s → Returns IsReady (insert_tab s)
unfolding insert_tab
insert_tab-IsReady s r =
    let again = insert_char-IsReady b' ' in
    Returns-bind IsReady IsReady (insert_char b' ' s) _ (again s r) (λ s1 r1.
      Returns-bind IsReady IsReady (insert_char b' ' s1) _ (again s1 r1)
        (λ s2 r2. Returns-bind IsReady IsReady (insert_char b' ' s2) _ (again s2 r2) again))

pub not_selecting : (s : NotepadState) → IsReady s → selecting s ≡ false
not_selecting s r = ap (λ (o : Option Selection). elim o [ none ↦ false | some sel ↦ true ]) r.clear

otherwise-IsReady :
    (b : Bool) (x y : Option NotepadState)
    → b ≡ false
    → Returns IsReady y
    → Returns IsReady (if b then x else y)
otherwise-IsReady true x y e h = cc
otherwise-IsReady false x y e h = h

backspace-IsReady : (s : NotepadState) → IsReady s → Returns IsReady (backspace s)
unfolding backspace
backspace-IsReady s r =
    let base = push_undo s in
    otherwise-IsReady (selecting s) _ _ (not_selecting s r) (
      from_Kept-all s _ r (
        Returns-bind (Kept base) (Kept base) (remove_left base) (λ left. some (ensure_visible left))
          (remove_left-Kept base (push_undo-IsValid s r.valid))
          (λ t k. ensure_visible-Kept base t k)))

delete-IsReady : (s : NotepadState) → IsReady s → Returns IsReady (delete s)
unfolding delete
delete-IsReady s r =
    otherwise-IsReady (selecting s) _ _ (not_selecting s r)
      (from_Kept-all s _ r (remove_right-Kept (push_undo s) (push_undo-IsValid s r.valid)))

paste_clear :
    (s : NotepadState) → IsReady s → (if selecting s then delete_selection s else some s) ≡ some s
paste_clear s r = ap (λ (b : Bool). if b then delete_selection s else some s) (not_selecting s r)

pasted-IsReady :
    (s : NotepadState)
    → IsReady s
    → Returns IsReady
        (paste_bytes s.clipboard (push_undo s) >>= λ pasted. some (ensure_visible (touched pasted)))
pasted-IsReady s r =
    let base = push_undo s in
    from_Kept-all s _ r (
      Returns-bind (Kept base) (Kept base) (paste_bytes s.clipboard base)
        (λ pasted. some (ensure_visible (touched pasted)))
        (paste_bytes-Kept s.clipboard base (push_undo-IsValid s r.valid))
        (λ t k. ensure_visible-Kept base (touched t) (touched-Kept base t k)))

either-IsReady :
    (b : Bool) (x y : Option NotepadState)
    → Returns IsReady x
    → Returns IsReady y
    → Returns IsReady (if b then x else y)
either-IsReady true x y h k = h
either-IsReady false x y h k = k

paste-IsReady : (s : NotepadState) → IsReady s → Returns IsReady (paste s)
unfolding paste
paste-IsReady s r =
    either-IsReady (length s.clipboard == 0) (some s) _ r
      (rw (paste_clear s r, ◌>>=◌) (pasted-IsReady s r))

-- A movement whose cursor lands in the text keeps the editor ready.
landed :
    (s t : NotepadState)
    → IsValid t
    → t.selection ≡ none
    → IsReady (update_selection_end (ensure_visible t))
unfolding update_selection_end ensure_visible
landed s t v e = record {
  valid = record { line = v.line; here = v.here; within = v.within };
  clear = rw e;
}

line_len-get :
    (s : NotepadState) (row : ℕ) (line : Line)
    → get_elem? s.lines row ≡ some line
    → line_len s row ≡ length line
unfolding line_len
line_len-get s row line e = ap length (get_or-get s.lines row line e)

where_IsReady :
    (b : Bool) (x y : NotepadState)
    → (b ≡ true → IsReady x)
    → (b ≡ false → IsReady y)
    → IsReady (if b then x else y)
where_IsReady true x y h k = h refl
where_IsReady false x y h k = k refl

-- The end of a row that is there.
row_end :
    (s t : NotepadState) (row : ℕ)
    → row < length s.lines
    → t.lines ≡ s.lines
    → t.cursor_row ≡ row
    → t.cursor_col ≤ line_len s row
    → t.selection ≡ none
    → IsReady t
row_end s t row h lines r c clear =
    let (line, there) = get_elem?_lt s.lines row h in
    record {
      valid = record {
        line = line;
        here = ap2_get lines r ∙ there;
        within = omega (arith, line_len-get s row line there);
      };
      clear = clear;
    }
  where
    ap2_get :
        t.lines ≡ s.lines
        → t.cursor_row ≡ row
        → get_elem? t.lines t.cursor_row ≡ get_elem? s.lines row
    ap2_get p q = rw (p, q)

in_text : (s : NotepadState) → IsReady s → s.cursor_row < length s.lines
in_text s r = get_elem?-length s.lines s.cursor_row r.valid.line r.valid.here

in_line : (s : NotepadState) → IsReady s → s.cursor_col ≤ line_len s s.cursor_row
in_line s r = omega (arith, r.valid.within, line_len-get s s.cursor_row r.valid.line r.valid.here)

go_left-IsReady : (s : NotepadState) → IsReady s → IsReady (go_left s)
unfolding go_left
go_left-IsReady s r =
    where_IsReady (ltb 0 s.cursor_col) _ _
      (λ h. row_end s _ s.cursor_row (in_text s r) refl refl (omega (arith, in_line s r)) r.clear)
      (λ h.
        where_IsReady (ltb 0 s.cursor_row) _ _
          (λ k.
            row_end s _ (s.cursor_row - 1) (omega (arith, in_text s r)) refl refl (omega arith)
              r.clear)
          (λ k. r))

go_right-IsReady : (s : NotepadState) → IsReady s → IsReady (go_right s)
unfolding go_right
go_right-IsReady s r =
    where_IsReady (ltb s.cursor_col (line_len s s.cursor_row)) _ _
      (λ h.
        row_end s _ s.cursor_row (in_text s r) refl refl
          (omega (arith, ltb→lt s.cursor_col (line_len s s.cursor_row) h)) r.clear)
      (λ h.
        where_IsReady (ltb (s.cursor_row + 1) (total_lines s)) _ _
          (λ k.
            row_end s _ (s.cursor_row + 1) (ltb→lt (s.cursor_row + 1) (total_lines s) k) refl refl
              (omega arith) r.clear)
          (λ k. r))

pub clamp_cursor-IsReady :
    (s : NotepadState) → 0 < total_lines s → s.selection ≡ none → IsReady (clamp_cursor s)
unfolding clamp_cursor
clamp_cursor-IsReady s some_line clear =
    let row = if leb (total_lines s) s.cursor_row then total_lines s - 1 else s.cursor_row in
    row_end s _ row (ground arith) refl refl (omega arith) clear

go_up-IsReady : (s : NotepadState) → IsReady s → IsReady (go_up s)
unfolding go_up
go_up-IsReady s r =
    where_IsReady (ltb 0 s.cursor_row) _ _
      (λ h. clamp_cursor-IsReady _ (omega (arith, in_text s r)) r.clear) (λ h. r)

go_down-IsReady : (s : NotepadState) → IsReady s → IsReady (go_down s)
unfolding go_down
go_down-IsReady s r =
    where_IsReady (ltb (s.cursor_row + 1) (total_lines s)) _ _
      (λ h. clamp_cursor-IsReady _ (omega (arith, in_text s r)) r.clear) (λ h. r)

start-IsReady : (s : NotepadState) → IsReady s → IsReady (start_or_extend_selection false s)
unfolding start_or_extend_selection
start-IsReady s r = record {
  valid = record { line = r.valid.line; here = r.valid.here; within = r.valid.within };
  clear = refl;
}

finish-IsReady : (t : NotepadState) → IsReady t → IsReady (update_selection_end (ensure_visible t))
finish-IsReady t r = landed t t r.valid r.clear

home-IsReady : (s : NotepadState) → IsReady s → IsReady (record s { cursor_col = 0 })
home-IsReady s r = row_end s _ s.cursor_row (in_text s r) refl refl (omega arith) r.clear

end-IsReady :
    (s : NotepadState) → IsReady s → IsReady (record s { cursor_col = line_len s s.cursor_row })
end-IsReady s r = row_end s _ s.cursor_row (in_text s r) refl refl (omega arith) r.clear

pub press-IsReady : (k : Key) (s : NotepadState) → IsReady s → Returns IsReady (press k s)
unfolding press move_left move_right move_up move_down move_home move_end
press-IsReady (Key.char c) s r = insert_char-IsReady c s r
press-IsReady Key.newline s r = from_Kept-all s (insert_newline s) r (insert_newline-Kept s r.valid)
press-IsReady Key.tab s r = insert_tab-IsReady s r
press-IsReady Key.backspace_key s r = backspace-IsReady s r
press-IsReady Key.delete_key s r = delete-IsReady s r
press-IsReady Key.paste_key s r = paste-IsReady s r
press-IsReady Key.left s r = finish-IsReady _ (go_left-IsReady _ (start-IsReady s r))
press-IsReady Key.right s r = finish-IsReady _ (go_right-IsReady _ (start-IsReady s r))
press-IsReady Key.up s r = finish-IsReady _ (go_up-IsReady _ (start-IsReady s r))
press-IsReady Key.down s r = finish-IsReady _ (go_down-IsReady _ (start-IsReady s r))
press-IsReady Key.home s r = finish-IsReady _ (home-IsReady _ (start-IsReady s r))
press-IsReady Key.end s r = finish-IsReady _ (end-IsReady _ (start-IsReady s r))

press_all-IsReady :
    (ks : List Key) (s : NotepadState) → IsReady s → Returns IsReady (press_all ks s)
unfolding press_all
press_all-IsReady [] s r = r
press_all-IsReady (k ∷ ks) s r =
    Returns-bind IsReady IsReady (press k s) (press_all ks) (press-IsReady k s r)
      (λ t q. press_all-IsReady ks t q)

-- No sequence of edits, pastes and cursor movements, made in a freshly initialised editor without holding
-- shift, panics: each index into the text is in range, and the cursor ends in a line of the text, at
-- most at its end, with nothing selected.
pub press_all-init : (ks : List Key) (s : NotepadState) → Returns IsReady (press_all ks (init s))
unfolding init
press_all-init ks s =
    press_all-IsReady ks (init s)
      (record { valid = record { line = []; here = refl; within = omega arith }; clear = refl })
