-- ===== src/Gui/Window/Maximize.antt =====
-- `toggle_maximize` of kernel/src/gui/window.rs: the window fills the screen below the taskbar, and comes
-- back.
use kafka_os.Base.{
  ℕ, ◌-◌, ◌^◌, ◌≤◌, ◌<◌, ◌≡◌, ◌∙◌, refl, sym, ap, Bool, true, false, none, some, List, [], ◌∷◌,
  arith,
}
use kafka_os.Base.Int.{pos, to_u32, sub_i32-pos}
use kafka_os.Gui.Geometry.{Rect}
use kafka_os.Gui.Window.{Window, rect, toggle_maximize}

to_u32-pos : (n : ℕ) → n < 2 ^ 31 → to_u32 (pos n) ≡ n
unfolding to_u32
to_u32-pos n h = omega arith

-- The window that fills a screen.
abbrev pub full : ℕ → ℕ → Window → Window
full sw sh w = record w {
  restore_rect = some (w.x, w.y, w.width, w.height);
  x = pos 0;
  y = pos 30;
  width = sw;
  height = sh - 30;
  is_maximized = true;
  is_dragging = false;
}

abbrev pub back : Window → Window
back w = record w { restore_rect = none; is_dragging = false }

maximizes :
    (sw sh : ℕ) (w : Window)
    → sw < 2 ^ 31
    → 30 ≤ sh
    → sh < 2 ^ 31
    → w.is_maximized ≡ false
    → toggle_maximize (pos sw) (pos sh) w ≡ (full sw sh w, rect (full sw sh w) ∷ [])
unfolding toggle_maximize
maximizes sw sh w hw hh kh e =
    rw (e, to_u32-pos sw hw, sub_i32-pos sh 30 hh kh, to_u32-pos (sh - 30) (omega arith)) refl

restores :
    (sw sh : ℕ) (w : Window)
    → w.is_maximized ≡ false
    → toggle_maximize (pos sw) (pos sh) (full sw sh w) ≡ (back w, rect (full sw sh w) ∷ rect w ∷ [])
unfolding toggle_maximize
restores sw sh w e =
    ap (λ (b : Bool). (record (back w) { is_maximized = b }, rect (full sw sh w) ∷ rect w ∷ []))
      (sym e)

-- Toggling a window that is not maximized makes it the whole screen below the taskbar, on a screen of at
-- least 30 rows and smaller than 2 ^ 31 in each direction, and damages its new place. Toggling it again
-- gives back its place and its size, without a place to restore and no longer dragged, and damages the
-- screen below the taskbar and its place.
pub toggle_maximize-twice :
    (sw sh : ℕ) (w : Window)
    → sw < 2 ^ 31
    → 30 ≤ sh
    → sh < 2 ^ 31
    → w.is_maximized ≡ false
    → (toggle_maximize (pos sw) (pos sh) w ≡ (full sw sh w, rect (full sw sh w) ∷ []))
      × (toggle_maximize (pos sw) (pos sh) (toggle_maximize (pos sw) (pos sh) w).0
          ≡ (back w, rect (full sw sh w) ∷ rect w ∷ []))
toggle_maximize-twice sw sh w hw hh kh e =
    let once = maximizes sw sh w hw hh kh e in
    (
      once,
      ap (λ (p : Window × List Rect). toggle_maximize (pos sw) (pos sh) p.0) once
          ∙ restores sw sh w e,
    )
