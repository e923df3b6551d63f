-- ===== src/Notepad/Edit/Total.antt =====
-- The editing methods of kernel/src/gui/notepad.rs do not panic while the cursor is in the text, and keep
-- it there.
use kafka_os.Base.{
  le→leb, ltb→lt, length-set, ℕ, zero, suc, ◌+◌, ◌-◌, ◌≤◌, ◌<◌, ◌≡◌, ◌∙◌, inl, inr, refl, min, true,
  false, Option, none, some, List, [], ◌∷◌, ◌++◌, ltb, leb, ◌==◌, if◌then◌else◌, length, take, drop,
  get_elem?, set, get_or, ◌>>=◌, arith, length-append, Bool-cases,
}
use mathlib.Core.Option
use kafka_os.Notepad.{Line, NotepadState, push_undo, ensure_visible, total_lines}
use kafka_os.Notepad.Edit.{
  insert_at, remove_at, split_off, insert_char, break_line, insert_newline, remove_left,
  remove_right, put_byte, paste_bytes, touched,
}

-- The cursor stands in a line, at most at its end.
pub record IsValid (s : NotepadState) : Type 0 where
  pub line : Line
  pub here : get_elem? s.lines s.cursor_row ≡ some line
  pub within : s.cursor_col ≤ length line

-- The computation does not panic, and its result has the property.
abbrev pub Returns {ℓ} : {A : Type ℓ} → (A → Type 0) → Option A → Type 0
Returns P none = ⊥
Returns P (some a) = P a

pub Returns-bind {ℓ κ} :
    {A : Type ℓ} {B : Type κ} (P : A → Type 0) (Q : B → Type 0) (m : Option A) (f : A → Option B)
    → Returns P m
    → ((a : A) → P a → Returns Q (f a))
    → Returns Q (m >>= f)
Returns-bind P Q none f h k = absurd h
Returns-bind P Q (some a) f h k = k a h

module _ {ℓ} {A : Type ℓ} where
  pub insert_at-length :
      (xs : List A) (i : ℕ) (a : A)
      → i ≤ length xs
      → Returns (λ ys. length ys ≡ length xs + 1) (insert_at xs i a)
  unfolding insert_at
  insert_at-length xs zero a h = omega arith
  insert_at-length [] (suc i) a h = absurd (omega arith)
  insert_at-length (x ∷ xs) (suc i) a h =
      go (insert_at xs i a) (insert_at-length xs i a (omega arith))
    where
      go :
          (o : Option (List A))
          → Returns (λ ys. length ys ≡ length xs + 1) o
          → Returns (λ ys. length ys ≡ suc (length xs) + 1) (Option.map (λ ys. x ∷ ys) o)
      go none r = r
      go (some ys) r = omega arith

  pub get_elem?-length : (xs : List A) (i : ℕ) (a : A) → get_elem? xs i ≡ some a → i < length xs
  get_elem?-length [] i a e = cc
  get_elem?-length (x ∷ xs) zero a e = omega arith
  get_elem?-length (x ∷ xs) (suc i) a e = omega (arith, get_elem?-length xs i a e)

  pub get_elem?_lt : (xs : List A) (i : ℕ) → i < length xs → (a : A) × (get_elem? xs i ≡ some a)
  get_elem?_lt [] i h = absurd (omega arith)
  get_elem?_lt (x ∷ xs) zero h = (x, refl)
  get_elem?_lt (x ∷ xs) (suc i) h = get_elem?_lt xs i (omega arith)

  pub get_elem?-set :
      (xs : List A) (i : ℕ) (a b : A) → get_elem? xs i ≡ some a → get_elem? (set xs i b) i ≡ some b
  get_elem?-set [] i a b e = cc
  get_elem?-set (x ∷ xs) zero a b e = refl
  get_elem?-set (x ∷ xs) (suc i) a b e = get_elem?-set xs i a b e

  -- The element that was inserted stands at its index.
  pub insert_at_lem :
      (xs : List A) (i : ℕ) (a : A)
      → i ≤ length xs
      → (ys : List A) × (insert_at xs i a ≡ some ys)
        × (get_elem? ys i ≡ some a)
        × (length ys ≡ length xs + 1)
  unfolding insert_at
  insert_at_lem xs zero a h = (a ∷ xs, refl, refl, omega arith)
  insert_at_lem [] (suc i) a h = absurd (omega arith)
  insert_at_lem (x ∷ xs) (suc i) a h =
      let (ys, e, g, l) = insert_at_lem xs i a (omega arith) in (x ∷ ys, rw e, g, omega arith)

  -- What is left after a removal, before and at the index.
  pub remove_at_lem :
      (xs : List A) (i : ℕ) (a : A)
      → get_elem? xs i ≡ some a
      → (ys : List A) × (remove_at xs i ≡ some (a, ys))
        × (suc (length ys) ≡ length xs)
        × ((j : ℕ) → j < i → get_elem? ys j ≡ get_elem? xs j)
  unfolding remove_at
  remove_at_lem [] i a e = cc
  remove_at_lem (x ∷ xs) zero a e = (xs, ground arith, refl, λ j h. absurd (omega arith))
  remove_at_lem (x ∷ xs) (suc i) a e =
      let (ys, r, l, same) = remove_at_lem xs i a e in (x ∷ ys, rw r, omega arith, before ys same)
    where
      before :
          (ys : List A)
          → ((j : ℕ) → j < i → get_elem? ys j ≡ get_elem? xs j)
          → (j : ℕ) → j < suc i
          → get_elem? (x ∷ ys) j ≡ get_elem? (x ∷ xs) j
      before ys same zero h = refl
      before ys same (suc j) h = same j (omega arith)

pub get_or-get :
    (lines : List Line) (row : ℕ) (line : Line)
    → get_elem? lines row ≡ some line
    → get_or lines row [] ≡ line
get_or-get [] row line e = cc
get_or-get (l ∷ lines) zero line e = cc
get_or-get (l ∷ lines) (suc row) line e = get_or-get lines row line e

-- A change of the text within one edit: the cursor stays in the text, and neither the history nor the
-- selection is touched.
pub record Kept (s t : NotepadState) : Type 0 where
  pub valid : IsValid t
  pub history : t.undo_stack ≡ s.undo_stack
  pub chosen : t.selection ≡ s.selection

pub push_undo-IsValid : (s : NotepadState) → IsValid s → IsValid (push_undo s)
unfolding push_undo
push_undo-IsValid s v = record { line = v.line; here = v.here; within = v.within }

pub ensure_visible-Kept : (s t : NotepadState) → Kept s t → Kept s (ensure_visible t)
unfolding ensure_visible
ensure_visible-Kept s t k = record {
  valid = record { line = k.valid.line; here = k.valid.here; within = k.valid.within };
  history = k.history;
  chosen = k.chosen;
}

pub touched-Kept : (s t : NotepadState) → Kept s t → Kept s (touched t)
touched-Kept s t k = record {
  valid = record { line = k.valid.line; here = k.valid.here; within = k.valid.within };
  history = k.history;
  chosen = k.chosen;
}

break_line-Kept : (s : NotepadState) → IsValid s → Returns (Kept s) (break_line s)
unfolding break_line split_off
break_line-Kept s v =
    let col = s.cursor_col in
    let fits : leb col (length v.line) ≡ true = le→leb col (length v.line) v.within in
    let cut = set s.lines s.cursor_row (take col v.line) in
    let room : s.cursor_row + 1 ≤ length cut = omega (
      arith,
      get_elem?-length s.lines s.cursor_row v.line v.here,
      length-set s.lines s.cursor_row (take col v.line),
    ) in
    let (lines, e, g, l) = insert_at_lem cut (s.cursor_row + 1) (drop col v.line) room in
    rw (v.here, ◌>>=◌)
      (rw (fits, ◌>>=◌)
        (rw (e, ◌>>=◌)
          (record {
            valid = record { line = drop col v.line; here = g; within = omega arith };
            history = refl;
            chosen = refl;
          })))

put_byte-Kept : (byte : ℕ) (s : NotepadState) → IsValid s → Returns (Kept s) (put_byte byte s)
unfolding put_byte
put_byte-Kept byte s v =
    let (longer, e, g, l) = insert_at_lem v.line s.cursor_col byte v.within in
    rw (v.here, ◌>>=◌)
      (rw (e, ◌>>=◌)
        (record {
          valid = record {
            line = longer;
            here = get_elem?-set s.lines s.cursor_row v.line longer v.here;
            within = omega (arith, v.within);
          };
          history = refl;
          chosen = refl;
        }))

pub insert_char-Kept :
    (ch : ℕ) (s : NotepadState) → IsValid s → Returns (Kept (push_undo s)) (insert_char ch s)
unfolding insert_char push_undo
insert_char-Kept ch s v =
    let col = min s.cursor_col (length v.line) in
    let (longer, e, g, l) = insert_at_lem v.line col ch (omega arith) in
    rw (v.here, ◌>>=◌)
      (rw (e, ◌>>=◌)
        (ensure_visible-Kept (push_undo s) _ (record {
          valid = record {
            line = longer;
            here = get_elem?-set s.lines s.cursor_row v.line longer v.here;
            within = omega arith;
          };
          history = refl;
          chosen = refl;
        })))

pub insert_newline-Kept :
    (s : NotepadState) → IsValid s → Returns (Kept (push_undo s)) (insert_newline s)
unfolding insert_newline
insert_newline-Kept s v =
    Returns-bind (Kept (push_undo s)) (Kept (push_undo s)) (break_line (push_undo s)) _
      (break_line-Kept (push_undo s) (push_undo-IsValid s v))
      (λ t k. ensure_visible-Kept (push_undo s) (touched t) (touched-Kept (push_undo s) t k))

-- The byte before the cursor is in the line, and goes.
remove_byte-Kept :
    (s : NotepadState) (v : IsValid s) (i c : ℕ)
    → i < length v.line
    → c ≤ i
    → (line : Line) × (byte : ℕ) × (remove_at v.line i ≡ some (byte, line))
      × Kept s (touched (record s { lines = set s.lines s.cursor_row line; cursor_col = c }))
remove_byte-Kept s v i c h within =
    let (byte, there) = get_elem?_lt v.line i h in
    let (shorter, e, l, same) = remove_at_lem v.line i byte there in
    (
      shorter,
      byte,
      e,
      record {
        valid = record {
          line = shorter;
          here = get_elem?-set s.lines s.cursor_row v.line shorter v.here;
          within = omega arith;
        };
        history = refl;
        chosen = refl;
      },
    )

-- The line of the cursor joins the line above it.
join_left-Kept :
    (s : NotepadState)
    → IsValid s
    → ltb 0 s.cursor_col ≡ false
    → ltb 0 s.cursor_row ≡ true
    → Returns (Kept s) (remove_left s)
unfolding remove_left
join_left-Kept s v start below =
    let low = ltb→lt 0 s.cursor_row below in
    let (rest, e, l, same) = remove_at_lem s.lines s.cursor_row v.line v.here in
    let inside = get_elem?-length s.lines s.cursor_row v.line v.here in
    let (above, there) = get_elem?_lt s.lines (s.cursor_row - 1) (omega (arith, inside)) in
    let stays : get_elem? rest (s.cursor_row - 1) ≡ some above =
      same (s.cursor_row - 1) (omega (arith, low)) ∙ there in
    rw (start, below)
      (rw (e, ◌>>=◌)
        (rw (stays, ◌>>=◌)
          (record {
            valid = record {
              line = above ++ v.line;
              here = get_elem?-set rest (s.cursor_row - 1) above (above ++ v.line) stays;
              within = omega (arith, length-append above v.line);
            };
            history = refl;
            chosen = refl;
          })))

pub remove_left-Kept : (s : NotepadState) → IsValid s → Returns (Kept s) (remove_left s)
unfolding remove_left
remove_left-Kept s v = elim (Bool-cases (ltb 0 s.cursor_col)) [
  | inl inside ↦
      (let low = ltb→lt 0 s.cursor_col inside in
        let (shorter, byte, e, k) =
          remove_byte-Kept s v (s.cursor_col - 1) (s.cursor_col - 1) (omega (arith, low, v.within))
            (omega arith) in
        rw (inside, v.here, ◌>>=◌) (rw (e, ◌>>=◌) k))
  | inr start ↦ elim (Bool-cases (ltb 0 s.cursor_row)) [
    | inl below ↦ join_left-Kept s v start below
    | inr top ↦ rw (start, top) (record { valid = v; history = refl; chosen = refl })
  ]
]

-- The line below joins the line of the cursor.
join_right-Kept :
    (s : NotepadState) (v : IsValid s)
    → ltb s.cursor_col (length v.line) ≡ false
    → ltb (s.cursor_row + 1) (total_lines s) ≡ true
    → Returns (Kept s) (remove_right s)
unfolding remove_right
join_right-Kept s v end more =
    let (below, there) =
      get_elem?_lt s.lines (s.cursor_row + 1) (ltb→lt (s.cursor_row + 1) (total_lines s) more) in
    let (rest, e, l, same) = remove_at_lem s.lines (s.cursor_row + 1) below there in
    let stays : get_elem? rest s.cursor_row ≡ some v.line =
      same s.cursor_row (omega arith) ∙ v.here in
    rw (v.here, ◌>>=◌)
      (rw (end, more)
        (rw (e, ◌>>=◌)
          (record {
            valid = record {
              line = v.line ++ below;
              here = get_elem?-set rest s.cursor_row v.line (v.line ++ below) stays;
              within = omega (arith, v.within, length-append v.line below);
            };
            history = refl;
            chosen = refl;
          })))

pub remove_right-Kept : (s : NotepadState) → IsValid s → Returns (Kept s) (remove_right s)
unfolding remove_right
remove_right-Kept s v = elim (Bool-cases (ltb s.cursor_col (length v.line))) [
  | inl inside ↦
      (let (shorter, byte, e, k) =
          remove_byte-Kept s v s.cursor_col s.cursor_col
            (ltb→lt s.cursor_col (length v.line) inside) (omega arith) in
        rw (v.here, ◌>>=◌) (rw inside (rw (e, ◌>>=◌) k)))
  | inr end ↦ elim (Bool-cases (ltb (s.cursor_row + 1) (total_lines s))) [
    | inl more ↦ join_right-Kept s v end more
    | inr last ↦
        rw (v.here, ◌>>=◌) (rw (end, last) (record { valid = v; history = refl; chosen = refl }))
  ]
]

Kept-trans : (s t u : NotepadState) → Kept s t → Kept t u → Kept s u
Kept-trans s t u p q = record {
  valid = q.valid;
  history = q.history ∙ p.history;
  chosen = q.chosen ∙ p.chosen;
}

put-Kept :
    (byte : ℕ) (s : NotepadState)
    → IsValid s
    → Returns (Kept s) (if byte == b'\n' then break_line s else put_byte byte s)
put-Kept byte s v = elim (Bool-cases (byte == b'\n')) [
  | inl newline ↦ rw newline (break_line-Kept s v)
  | inr other ↦ rw other (put_byte-Kept byte s v)
]

Returns-weaken {ℓ} :
    {A : Type ℓ} (P Q : A → Type 0) (o : Option A)
    → ((a : A) → P a → Q a)
    → Returns P o
    → Returns Q o
Returns-weaken P Q none f h = h
Returns-weaken P Q (some a) f h = f a h

pub paste_bytes-Kept :
    (clip : List ℕ) (s : NotepadState) → IsValid s → Returns (Kept s) (paste_bytes clip s)
unfolding paste_bytes
paste_bytes-Kept [] s v = record { valid = v; history = refl; chosen = refl }
paste_bytes-Kept (byte ∷ clip) s v =
    Returns-bind (Kept s) (Kept s) (if byte == b'\n' then break_line s else put_byte byte s)
      (paste_bytes clip) (put-Kept byte s v)
      (λ t k.
        Returns-weaken (Kept t) (Kept s) (paste_bytes clip t) (λ u q. Kept-trans s t u k q)
          (paste_bytes-Kept clip t k.valid))
