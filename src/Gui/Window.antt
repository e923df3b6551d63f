-- ===== src/Gui/Window.antt =====
-- A window of kernel/src/gui/window.rs without its picture and what its application keeps, and what the
-- compositor of kernel/src/gui/graphics.rs does with it. What `report_damage` queues is a list of
-- rectangles. `none` is a failed assertion of `clamp`.
pub mod Moves
pub mod Clicks
pub mod Maximize
use kafka_os.Base.{
  ℕ, suc, ◌+◌, Bool, true, false, ◌&&◌, ◌||◌, not, Option, none, some, List, [], ◌∷◌, ◌++◌,
  if◌then◌else◌, ◌>>=◌,
}
use kafka_os.Base.Int.{ℤ, pos, ltb_ℤ, leb_ℤ, eqb_ℤ, add_i32, sub_i32, signed32, to_u32}
use kafka_os.Gui.Geometry.{Rect}
use kafka_os.Gui.Mouse.{clamp}

pub record Window : Type 0 where
  pub x : ℤ
  pub y : ℤ
  pub width : ℕ
  pub height : ℕ
  pub close_btn : Bool
  pub is_minimized : Bool
  pub is_maximized : Bool
  pub restore_rect : Option (ℤ × ℤ × ℕ × ℕ)
  pub is_dragging : Bool
  pub drag_x : ℤ
  pub drag_y : ℤ
  pub maximizable : Bool

unfoldable pub new : ℤ → ℤ → ℕ → ℕ → Window
new x y width height = record {
  x = x;
  y = y;
  width = width;
  height = height;
  close_btn = false;
  is_minimized = false;
  is_maximized = false;
  restore_rect = none;
  is_dragging = false;
  drag_x = x;
  drag_y = y;
  maximizable = true;
}

abbrev pub rect_at : ℤ → ℤ → ℕ → ℕ → Rect
rect_at x y width height = record { x = x; y = y; width = signed32 width; height = signed32 height }

abbrev pub rect : Window → Rect
rect w = rect_at w.x w.y w.width w.height

abbrev pub taskbar_h : ℤ
taskbar_h = pos 30

abbrev restored : Window → Option (ℤ × ℤ × ℕ × ℕ) → Window
restored w none = w
restored w (some (rx, ry, rw, rh)) = record w {
  x = rx;
  y = ry;
  width = rw;
  height = rh;
  restore_rect = none;
}

abbrev restore : Window → Window
restore w = record (restored w w.restore_rect) { is_maximized = false }

abbrev maximize : ℤ → ℤ → Window → Window
maximize sw sh w = record w {
  restore_rect = some (w.x, w.y, w.width, w.height);
  x = pos 0;
  y = taskbar_h;
  width = to_u32 sw;
  height = to_u32 (sub_i32 sh taskbar_h);
  is_maximized = true;
}

unfoldable pub toggle_maximize : ℤ → ℤ → Window → Window × List Rect
toggle_maximize sw sh w =
    if w.is_maximized
    then (let w' = record (restore w) { is_dragging = false } in (w', rect w ∷ rect w' ∷ []))
    else (let w' = record (maximize sw sh w) { is_dragging = false } in (w', rect w' ∷ []))

-- The buttons of the title bar, and the bar itself, by which a window is dragged.
abbrev on_button : Window → ℤ → ℤ → ℕ → ℕ → Bool
on_button w x y from to =
    leb_ℤ (sub_i32 (signed32 w.width) (pos from)) x
    && (ltb_ℤ x (sub_i32 (signed32 w.width) (pos to)) && (leb_ℤ (pos 1) y && leb_ℤ y (pos 19)))

abbrev on_close : Window → ℤ → ℤ → Bool
on_close w x y =
    leb_ℤ (sub_i32 (signed32 w.width) (pos 20)) x
    && (leb_ℤ x (sub_i32 (signed32 w.width) (pos 2)) && (leb_ℤ (pos 1) y && leb_ℤ y (pos 19)))

abbrev on_bar : Window → ℤ → ℤ → Bool
on_bar w x y =
    leb_ℤ (pos 0) x
    && (leb_ℤ x (sub_i32 (signed32 w.width) (pos 61)) && (leb_ℤ (pos 0) y && leb_ℤ y (pos 20)))

unfoldable pub click_frame : ℤ → ℤ → Window → ℤ → ℤ → Window × List Rect
click_frame sw sh w x y =
    if on_close w x y
    then (record w { close_btn = true }, [])
    else if w.maximizable && on_button w x y 40 20
    then toggle_maximize sw sh w
    else if on_button w x y 60 40
    then (record w { is_minimized = true }, [])
    else if on_bar w x y
    then (record w { is_dragging = true; drag_x = x; drag_y = y }, [])
    else (w, [])

-- A point of the screen that a click gives to the window.
abbrev pub hits : Window → ℤ → ℤ → Bool
hits w x y =
    not w.is_minimized
    && (leb_ℤ w.x x
        && (ltb_ℤ x (add_i32 w.x (signed32 w.width))
            && (leb_ℤ w.y y && ltb_ℤ y (add_i32 w.y (signed32 w.height)))))

-- A released button: every window lets go.
unfoldable pub release_all : List Window → List Window
release_all [] = []
release_all (w ∷ ws) = record w { is_dragging = false } ∷ release_all ws

-- The damage of a move in one direction: what the old place shows and the new one, in this direction, does
-- not.
unfoldable pub x_damage : ℤ → ℤ → ℕ → ℕ → ℤ → List Rect
x_damage x y width height new_x =
    if ltb_ℤ new_x x
    then record {
      x = add_i32 new_x (signed32 width);
      y = y;
      width = sub_i32 x new_x;
      height = signed32 height;
    }
      ∷ []
    else if ltb_ℤ x new_x
    then record { x = x; y = y; width = sub_i32 new_x x; height = signed32 height } ∷ []
    else []

unfoldable pub y_damage : ℤ → ℤ → ℕ → ℕ → ℤ → List Rect
y_damage x y width height new_y =
    if ltb_ℤ new_y y
    then record {
      x = x;
      y = add_i32 new_y (signed32 height);
      width = signed32 width;
      height = sub_i32 y new_y;
    }
      ∷ []
    else if ltb_ℤ y new_y
    then record { x = x; y = y; width = signed32 width; height = sub_i32 new_y y } ∷ []
    else []

unfoldable pub move_to : Window → ℤ → ℤ → Window × List Rect
move_to w new_x new_y =
    if not (eqb_ℤ new_x w.x) || not (eqb_ℤ new_y w.y)
    then (
      record w { x = new_x; y = new_y },
      x_damage w.x w.y w.width w.height new_x
          ++ (y_damage w.x w.y w.width w.height new_y
              ++ (rect_at new_x new_y w.width w.height ∷ [])),
    )
    else (w, [])

-- The drag engine, for the top window and the place of the cursor.
unfoldable pub drag : ℤ → ℤ → ℤ → ℤ → Window → Option (Window × List Rect)
drag screen_width screen_height mouse_x mouse_y w =
    if w.is_dragging
    then (do
      new_x ← clamp (sub_i32 mouse_x w.drag_x) (pos 0) (sub_i32 screen_width (signed32 w.width))
      new_y ← clamp (sub_i32 mouse_y w.drag_y) (pos 30) (sub_i32 screen_height (signed32 w.height))
      some (move_to w new_x new_y))
    else some (w, [])

-- The windows from the bottom to the top.
pub record WindowManager : Type 0 where
  pub windows : List Window
  pub screen_width : ℕ
  pub screen_height : ℕ

unfoldable pub new_manager : ℕ → ℕ → WindowManager
new_manager screen_width screen_height = record {
  windows = [];
  screen_width = screen_width;
  screen_height = screen_height;
}

unfoldable pub add_window : WindowManager → Window → WindowManager
add_window wm window = record wm { windows = wm.windows ++ (window ∷ []) }

-- The manager of an empty desktop, and the damage of the whole screen.
unfoldable pub setup_desktop : ℤ → ℤ → WindowManager × List Rect
setup_desktop screen_width screen_height = (
  new_manager (to_u32 screen_width) (to_u32 screen_height),
  record { x = pos 0; y = pos 0; width = screen_width; height = screen_height } ∷ [],
)
