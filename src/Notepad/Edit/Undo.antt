-- ===== src/Notepad/Edit/Undo.antt =====
-- Undoing an edit of kernel/src/gui/notepad.rs.
use kafka_os.Base.{
  ℕ, ◌-◌, ◌≡◌, ◌∙◌, refl, ap, Option, none, some, List, [], ◌∷◌, ◌++◌, leb, if◌then◌else◌, length,
  drop, get_or, arith,
}
use kafka_os.Notepad.{
  NotepadState, Snapshot, pop, push_undo, clamp_cursor, ensure_visible, undo, redo, snapshot,
  max_undo, shown, restore, line_len,
}
use kafka_os.Notepad.Edit.{insert_char, insert_newline}
use kafka_os.Notepad.Edit.Total.{
  IsValid, Kept, Returns, get_elem?-length, get_or-get, insert_char-Kept, insert_newline-Kept,
}

pub pop_append {ℓ} : {A : Type ℓ} (xs : List A) (x : A) → pop (xs ++ x ∷ []) ≡ some (x, xs)
unfolding pop
pop_append [] x = refl
pop_append (y ∷ ys) x = rw (pop_append ys x)

abbrev undone : NotepadState → Snapshot → List Snapshot → NotepadState
undone t snap rest =
    shown
      (restore (record t { undo_stack = rest; redo_stack = t.redo_stack ++ snapshot t ∷ [] }) snap)

undo-top :
    (t : NotepadState) (snap : Snapshot) (rest : List Snapshot)
    → pop t.undo_stack ≡ some (snap, rest)
    → undo t ≡ undone t snap rest
unfolding undo
undo-top t snap rest top =
    ap
      (λ (o : Option (Snapshot × List Snapshot)). elim o [
        | none ↦ t
        | some (taken, left) ↦ undone t taken left
      ])
      top

redo-top :
    (t : NotepadState) (snap : Snapshot) (rest : List Snapshot)
    → pop t.redo_stack ≡ some (snap, rest)
    → (redo t).lines ≡ snap.lines
unfolding redo clamp_cursor ensure_visible
redo-top t snap rest top =
    ap
      (λ (o : Option (Snapshot × List Snapshot)).
        (elim o as (λ x. NotepadState) [
          | none ↦ t
          | some (taken, left) ↦ shown (
              restore (record t { redo_stack = left; undo_stack = t.undo_stack ++ snapshot t ∷ [] })
                taken)
        ]).lines)
      top

older : NotepadState → List Snapshot
older s = if leb max_undo (length s.undo_stack) then drop 1 s.undo_stack else s.undo_stack

-- The snapshot that an edit pushed is the top of the stack.
edited-top :
    (s t : NotepadState)
    → t.undo_stack ≡ (push_undo s).undo_stack
    → pop t.undo_stack ≡ some (snapshot s, older s)
unfolding push_undo older
edited-top s t history = ap pop history ∙ pop_append (older s) (snapshot s)

undone-redo :
    (t : NotepadState) (snap : Snapshot) (rest : List Snapshot)
    → (redo (undone t snap rest)).lines ≡ t.lines
unfolding clamp_cursor ensure_visible
undone-redo t snap rest =
    redo-top (undone t snap rest) (snapshot t) t.redo_stack (pop_append t.redo_stack (snapshot t))

undone-cursor :
    (s t : NotepadState) (rest : List Snapshot)
    → IsValid s
    → ((undone t (snapshot s) rest).cursor_row ≡ s.cursor_row)
      × ((undone t (snapshot s) rest).cursor_col ≡ s.cursor_col)
unfolding clamp_cursor ensure_visible line_len
undone-cursor s t rest v =
    let inside = get_elem?-length s.lines s.cursor_row v.line v.here in
    let e : (if leb (length s.lines) s.cursor_row then length s.lines - 1 else s.cursor_row)
        ≡ s.cursor_row =
      ground (arith, inside) in
    let whole : length (get_or s.lines s.cursor_row []) ≡ length v.line =
      ap length (get_or-get s.lines s.cursor_row v.line v.here) in
    (e, rw e (omega (arith, whole, v.within)))

-- An edit that pushed its snapshot first is undone: the text and the cursor are what they were before it,
-- and a redo brings the text of the edit back.
pub undo_edit :
    (s t : NotepadState)
    → IsValid s
    → t.undo_stack ≡ (push_undo s).undo_stack
    → ((undo t).lines ≡ s.lines)
      × ((undo t).cursor_row ≡ s.cursor_row)
      × ((undo t).cursor_col ≡ s.cursor_col)
      × ((redo (undo t)).lines ≡ t.lines)
unfolding clamp_cursor ensure_visible
undo_edit s t v history =
    let e = undo-top t (snapshot s) (older s) (edited-top s t history) in
    let (row, col) = undone-cursor s t (older s) v in
    (
      ap (λ (n : NotepadState). n.lines) e,
      ap (λ (n : NotepadState). n.cursor_row) e ∙ row,
      ap (λ (n : NotepadState). n.cursor_col) e ∙ col,
      ap (λ (n : NotepadState). (redo n).lines) e ∙ undone-redo t (snapshot s) (older s),
    )

typed :
    (s : NotepadState) (o : Option NotepadState)
    → IsValid s
    → Returns (Kept (push_undo s)) o
    → (t : NotepadState) × (o ≡ some t)
      × ((undo t).lines ≡ s.lines)
      × ((undo t).cursor_row ≡ s.cursor_row)
      × ((undo t).cursor_col ≡ s.cursor_col)
      × ((redo (undo t)).lines ≡ t.lines)
typed s none v h = absurd h
typed s (some t) v k = let (l, r, c, again) = undo_edit s t v k.history in (t, refl, l, r, c, again)

-- Where the cursor is in the text, typing a character does not panic; undo then gives the text and the
-- cursor from before it, also where the stack of fifty snapshots was full, and redo gives the text with
-- the character again.
pub undo-insert_char :
    (ch : ℕ) (s : NotepadState)
    → IsValid s
    → (t : NotepadState) × (insert_char ch s ≡ some t)
      × ((undo t).lines ≡ s.lines)
      × ((undo t).cursor_row ≡ s.cursor_row)
      × ((undo t).cursor_col ≡ s.cursor_col)
      × ((redo (undo t)).lines ≡ t.lines)
undo-insert_char ch s v = typed s (insert_char ch s) v (insert_char-Kept ch s v)

-- Where the cursor is in the text, breaking a line does not panic; undo then gives the text and the
-- cursor from before it, also where the stack of fifty snapshots was full, and redo gives the broken
-- line again.
undo-insert_newline :
    (s : NotepadState)
    → IsValid s
    → (t : NotepadState) × (insert_newline s ≡ some t)
      × ((undo t).lines ≡ s.lines)
      × ((undo t).cursor_row ≡ s.cursor_row)
      × ((undo t).cursor_col ≡ s.cursor_col)
      × ((redo (undo t)).lines ≡ t.lines)
undo-insert_newline s v = typed s (insert_newline s) v (insert_newline-Kept s v)
