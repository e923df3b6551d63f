-- ===== src/Gui/Window/Moves/Dragging.antt =====
-- The drag engine of kernel/src/gui/graphics.rs as a whole.
use kafka_os.Base.{
  ℕ, ◌+◌, ◌-◌, ◌^◌, ◌≤◌, ◌<◌, ◌≡◌, ◌⊎◌, inl, inr, refl, sym, true, ◌||◌, not, some, List, [], arith,
  Bool-cases,
}
use kafka_os.Base.Int.{ℤ, pos, negsuc, ◌≤ℤ◌, eqb_ℤ, sub_i32, sub_i32-pos}
use kafka_os.Gui.Geometry.{Rect}
use kafka_os.Gui.Geometry.Cover.{covers, cover_count}
use kafka_os.Gui.Mouse.{clamp}
use kafka_os.Gui.Mouse.Gesture.{clamp-some}
use kafka_os.Gui.Window.{Window, rect, move_to, drag}
use kafka_os.Gui.Window.Moves.{IsSpan, signed32-pos, seen_damage}

-- A window that the screen has room for, below the taskbar.
pub record IsRoom (screen_width screen_height : ℕ) (w : Window) : Type 0 where
  pub x_span : IsSpan 0 w.x w.width (2 ^ 31 - 1)
  pub y_span : IsSpan 0 w.y w.height (2 ^ 31 - 1)
  pub width_le : w.width ≤ screen_width
  pub height_le : w.height + 30 ≤ screen_height
  pub screen_width_lt : screen_width < 2 ^ 31
  pub screen_height_lt : screen_height < 2 ^ 31

eqb_ℤ-true : (a b : ℤ) → eqb_ℤ a b ≡ true → a ≡ b
eqb_ℤ-true a b e = ground arith

IsSpan-end :
    (low size w : ℕ) (v : ℤ)
    → low + w ≤ size
    → pos low ≤ℤ v
    → v ≤ℤ pos (size - w)
    → IsSpan low v w size
IsSpan-end low size w v h lo hi = (lo, ground arith)

IsSpan-fits :
    (low size w : ℕ) (v : ℤ) → size < 2 ^ 31 → IsSpan low v w size → IsSpan 0 v w (2 ^ 31 - 1)
IsSpan-fits low size w (pos n) h (lo, hi) = (omega arith, omega arith)
IsSpan-fits low size w (negsuc n) h (lo, hi) = absurd (omega arith)

-- Every point that the one rectangle or the other covers is damaged.
abbrev pub Damaged : Rect → Rect → List Rect → Type 0
Damaged old now damage =
    (px py : ℤ) → (covers old px py || covers now px py) ≡ true → 0 < cover_count damage px py

-- What a move to a place comes to.
abbrev pub MovesTo : Window → ℤ → ℤ → Window → List Rect → Type 0
MovesTo w n m w' damage =
    (w' ≡ record w { x = n; y = m })
    × (((rect w' ≡ rect w) × (damage ≡ [])) ⊎ Damaged (rect w) (rect w') damage)

move_to-MovesTo :
    (w : Window) (n m : ℤ)
    → IsSpan 0 w.x w.width (2 ^ 31 - 1)
    → IsSpan 0 w.y w.height (2 ^ 31 - 1)
    → IsSpan 0 n w.width (2 ^ 31 - 1)
    → IsSpan 0 m w.height (2 ^ 31 - 1)
    → MovesTo w n m (move_to w n m).0 (move_to w n m).1
unfolding move_to
move_to-MovesTo w n m hx hy hn hm = elim (Bool-cases (not (eqb_ℤ n w.x) || not (eqb_ℤ m w.y))) [
  | inl test ↦
      rw test (refl, inr (λ px py. seen_damage w.x w.y n m w.width w.height px py hx hy hn hm))
  | inr test ↦
      let same_x : n ≡ w.x = eqb_ℤ-true n w.x (ground arith) in
      let same_y : m ≡ w.y = eqb_ℤ-true m w.y (ground arith) in
      rw test (λ i. record w { x = sym same_x i; y = sym same_y i }, inl (refl, refl))
]

drag_places :
    (sw sh : ℕ) (mx my n m : ℤ) (w : Window)
    → w.is_dragging ≡ true
    → IsRoom sw sh w
    → clamp (sub_i32 mx w.drag_x) (pos 0) (pos (sw - w.width)) ≡ some n
    → clamp (sub_i32 my w.drag_y) (pos 30) (pos (sh - w.height)) ≡ some m
    → drag (pos sw) (pos sh) mx my w ≡ some (move_to w n m)
unfolding drag
drag_places sw sh mx my n m w hd h ex ey =
    let width_le = h.width_le in
    let height_le = h.height_le in
    let screen_width_lt = h.screen_width_lt in
    let screen_height_lt = h.screen_height_lt in
    rw
      (
        hd,
        signed32-pos w.width (omega arith),
        signed32-pos w.height (omega arith),
        sub_i32-pos sw w.width width_le screen_width_lt,
        sub_i32-pos sh w.height (omega arith) screen_height_lt,
        ex,
        ey,
      )
      refl

-- A window that is dragged, from a place whose coordinates are not negative, on a screen with room for it
-- below the taskbar: wherever the cursor is, the drag does not panic, the whole window is on the screen and
-- below the taskbar afterwards, and nothing of it but the place has changed. Either it did not move and
-- nothing is damaged, or every pixel of its old and of its new place is damaged.
pub drag-MovesTo :
    (sw sh : ℕ) (mx my : ℤ) (w : Window)
    → w.is_dragging ≡ true
    → IsRoom sw sh w
    → (w' : Window) × (damage : List Rect) × (n : ℤ) × (m : ℤ) × (drag (pos sw) (pos sh) mx my w
        ≡ some (w', damage))
      × MovesTo w n m w' damage
      × IsSpan 0 n w.width sw
      × IsSpan 30 m w.height sh
drag-MovesTo sw sh mx my w hd h =
    let width_le = h.width_le in
    let height_le = h.height_le in
    let (n, en, n_ge, n_le) =
      clamp-some (sub_i32 mx w.drag_x) (pos 0) (pos (sw - w.width)) (omega arith) in
    let (m, em, m_ge, m_le) =
      clamp-some (sub_i32 my w.drag_y) (pos 30) (pos (sh - w.height)) (omega arith) in
    let x_end = IsSpan-end 0 sw w.width n (omega arith) n_ge n_le in
    let y_end = IsSpan-end 30 sh w.height m (omega arith) m_ge m_le in
    let moved =
      move_to-MovesTo w n m h.x_span h.y_span (IsSpan-fits 0 sw w.width n h.screen_width_lt x_end)
        (IsSpan-fits 30 sh w.height m h.screen_height_lt y_end) in
    (
      (move_to w n m).0,
      (move_to w n m).1,
      n,
      m,
      drag_places sw sh mx my n m w hd h en em,
      moved,
      x_end,
      y_end,
    )
