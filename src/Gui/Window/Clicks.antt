-- ===== src/Gui/Window/Clicks.antt =====
-- What kernel/src/gui/graphics.rs does with the button of the mouse: the window that a click is for, and its place
-- on top. Of a window's own work only its frame is modelled.
pub mod Top
use kafka_os.Base.{
  ℕ, zero, suc, ◌+◌, ◌-◌, Bool, true, false, ◌&&◌, ◌||◌, not, Option, none, some, List, [], ◌∷◌,
  ◌++◌, ltb, ◌==◌, if◌then◌else◌, length,
}
use kafka_os.Base.Int.{ℤ, sub_i32}
use kafka_os.Gui.Geometry.{Rect}
use kafka_os.Gui.Window.{Window, WindowManager, rect, hits, click_frame}

-- The last window that a point hits.
unfoldable pub hit_index : List Window → ℤ → ℤ → Option ℕ
hit_index [] x y = none
hit_index (w ∷ windows) x y = elim (hit_index windows x y) [
  | some i ↦ some (suc i)
  | none ↦ if hits w x y then some 0 else none
]

-- The event of the window, at a point from its corner.
abbrev pub click_at : ℤ → ℤ → ℤ → ℤ → Window → Window × List Rect
click_at sw sh x y w = click_frame sw sh w (sub_i32 x w.x) (sub_i32 y w.y)

abbrev pub clicked : ℤ → ℤ → ℤ → ℤ → List Window → ℕ → List Window × List Rect
clicked sw sh x y [] i = ([], [])
clicked sw sh x y (w ∷ windows) zero = let r = click_at sw sh x y w in (r.0 ∷ windows, r.1)
clicked sw sh x y (w ∷ windows) (suc i) = let r = clicked sw sh x y windows i in (w ∷ r.0, r.1)

-- `Vec::remove` and `Vec::push`, with the damage of the window.
abbrev pub to_top : List Window → ℕ → List Window × List Rect
to_top [] i = ([], [])
to_top (w ∷ windows) zero = (windows ++ (w ∷ []), rect w ∷ [])
to_top (w ∷ windows) (suc i) = let r = to_top windows i in (w ∷ r.0, r.1)

abbrev pub raise : List Window → ℕ → List Window × List Rect
raise windows i = if i == length windows - 1 then (windows, []) else to_top windows i

abbrev pub click_found : ℤ → ℤ → ℤ → ℤ → List Window → Option ℕ → List Window × List Rect
click_found sw sh x y windows none = (windows, [])
click_found sw sh x y windows (some i) =
    let c = clicked sw sh x y windows i in let r = raise c.0 i in (r.0, c.1 ++ r.1)

-- `RawMouse::Left` below the taskbar, with the damage that is reported.
unfoldable pub left : ℤ → ℤ → ℤ → ℤ → WindowManager → WindowManager × List Rect
left sw sh x y wm =
    let r = click_found sw sh x y wm.windows (hit_index wm.windows x y) in
    (record wm { windows = r.0 }, r.1)
