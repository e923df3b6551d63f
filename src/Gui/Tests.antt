-- ===== src/Gui/Tests.antt =====
-- The calculator, two rectangles, the mouse and a window of kernel/src/gui.
use kafka_os.Base.{
  ◌+◌, ◌*◌, length, get_elem?, length-replicate, inl, inr, ◌≡◌, refl, if◌then◌else◌, true, false,
  ◌&&◌, not, none, some, List, [], ◌∷◌, arith,
}
use kafka_os.Base.Int.{ℤ, pos, negsuc, ◌+ℤ◌}
use kafka_os.Gui.Calculator.{evaluate_expression}
use kafka_os.Gui.Calculator.Meaning.{AddOp, MulOp, Sum}
use kafka_os.Gui.Calculator.Buttons.{press_all, answer}
use kafka_os.Gui.Calculator.Buttons.Typing.{press_all-evaluate_expression}
use kafka_os.Gui.Geometry.{Rect, subtract}
use kafka_os.Gui.Geometry.Cover.{OnScreen, cover_count, covers}
use kafka_os.Gui.Geometry.Strips.{cover_count-subtract}
use kafka_os.Gui.Mouse.{MousePacket}
use kafka_os.Gui.Mouse.Packets.{Decoder, add_bytes}
use kafka_os.Gui.Mouse.Packets.Bytes.{bytes_of, add_bytes-bytes_of}
use kafka_os.Gui.Screen.{FrameBufferDisplay, Surface, Desktop, paint_all}
use kafka_os.Gui.Screen.Rows.{byte_at}
use kafka_os.Gui.Screen.Rows.Blit.{at}
use kafka_os.Gui.Screen.Drawn.{IsDisplay}
use kafka_os.Gui.Screen.Compositor.{ArePlaced, IsShown, IsDesktop}
use kafka_os.Gui.Screen.Damage.{AreRects, paint_all-shown}
use kafka_os.Gui.Paint
use kafka_os.Gui.Paint.{paint, white}
use kafka_os.Gui.Paint.Square.{near, paint-near}
use kafka_os.Gui.Window.Clicks.{left}
use kafka_os.Gui.Window.{WindowManager, new, Window, drag}
use kafka_os.Gui.Window.Moves.{IsSpan}
use kafka_os.Gui.Window.Moves.Dragging.{IsRoom, MovesTo, drag-MovesTo}

-- 12-3*4
abbrev twelve_minus : Sum
twelve_minus = record {
  term = record { factor = record { first = 49; rest = 50 ∷ [] }; factors = [] };
  terms =
      (
        AddOp.minus,
        record {
          factor = record { first = 51; rest = [] };
          factors = (MulOp.times, record { first = 52; rest = [] }) ∷ [];
        },
      )
      ∷ [];
}

abbrev screen_rect : Rect
screen_rect = record { x = pos 0; y = pos 0; width = pos 40; height = pos 30 }

abbrev hole_rect : Rect
hole_rect = record { x = pos 10; y = pos 10; width = pos 5; height = pos 50 }

screen_rect-OnScreen : OnScreen screen_rect
unfolding ◌+ℤ◌
screen_rect-OnScreen = record {
  x_nonneg = omega arith;
  y_nonneg = omega arith;
  width_nonneg = omega arith;
  height_nonneg = omega arith;
  right_fits = (omega arith, omega arith);
  bottom_fits = (omega arith, omega arith);
}

hole_rect-OnScreen : OnScreen hole_rect
unfolding ◌+ℤ◌
hole_rect-OnScreen = record {
  x_nonneg = omega arith;
  y_nonneg = omega arith;
  width_nonneg = omega arith;
  height_nonneg = omega arith;
  right_fits = (omega arith, omega arith);
  bottom_fits = (omega arith, omega arith);
}

cover_count-subtract_example : cover_count (subtract screen_rect hole_rect) (pos 3) (pos 12) ≡ (
    if covers screen_rect (pos 3) (pos 12) && not (covers hole_rect (pos 3) (pos 12)) then 1 else 0)
cover_count-subtract_example =
    cover_count-subtract screen_rect hole_rect (pos 3) (pos 12) screen_rect-OnScreen
      hole_rect-OnScreen

abbrev packets : List MousePacket
packets =
    record { x = pos 200; y = negsuc 4; left_btn = true; right_btn = false }
    ∷ record { x = negsuc 99; y = pos 7; left_btn = false; right_btn = false }
    ∷ []

abbrev dragged_window : Window
dragged_window = record {
  x = pos 100;
  y = pos 80;
  width = 150;
  height = 120;
  close_btn = false;
  is_minimized = false;
  is_maximized = false;
  restore_rect = none;
  is_dragging = true;
  drag_x = pos 12;
  drag_y = pos 5;
  maximizable = true;
}

dragged_window-IsRoom : IsRoom 640 480 dragged_window
dragged_window-IsRoom = record {
  x_span = (omega arith, omega arith);
  y_span = (omega arith, omega arith);
  width_le = omega arith;
  height_le = omega arith;
  screen_width_lt = omega arith;
  screen_height_lt = omega arith;
}

drag-MovesTo_example :
    (w' : Window) × (damage : List Rect) × (n : ℤ) × (m : ℤ) × (drag
        (pos 640)
        (pos 480)
        (pos 630)
        (pos 20)
        dragged_window
      ≡ some (w', damage))
    × MovesTo dragged_window n m w' damage
    × IsSpan 0 n 150 640
    × IsSpan 30 m 120 480
drag-MovesTo_example =
    drag-MovesTo 640 480 (pos 630) (pos 20) dragged_window refl dragged_window-IsRoom

abbrev idle_decoder : Decoder
idle_decoder = record { flags = 0; x_byte = 0; y_byte = 0; index = 0; queue = [] }

add_bytes-bytes_of_example :
    ((add_bytes idle_decoder (bytes_of packets)).index ≡ 0)
    × ((add_bytes idle_decoder (bytes_of packets)).queue ≡ packets)
add_bytes-bytes_of_example = add_bytes-bytes_of idle_decoder packets refl (omega arith) (
  (omega arith, omega arith),
  (omega arith, omega arith),
  ((omega arith, omega arith), (omega arith, omega arith), tt),
)

-- 12-3=
press_all-evaluate_expression_example :
    press_all
      (λ (n : ℤ). b'9' ∷ [])
      (record { display = b'0' ∷ []; clear_on_next = false })
      (b'1' ∷ b'2' ∷ b'-' ∷ b'3' ∷ b'=' ∷ [])
    ≡ answer (λ (n : ℤ). b'9' ∷ []) (evaluate_expression (b'1' ∷ b'2' ∷ b'-' ∷ b'3' ∷ []))
press_all-evaluate_expression_example =
    press_all-evaluate_expression (λ (n : ℤ). b'9' ∷ [])
      (record { display = b'0' ∷ []; clear_on_next = false }) b'1' (b'2' ∷ b'-' ∷ b'3' ∷ [])
      (inr refl) (omega arith, omega arith) (inl refl, (inr (refl, refl, refl), (inl refl, tt)))

-- A screen of two columns and 32 rows: the taskbar, and a window of two pixels below it.
abbrev small_screen : FrameBufferDisplay
small_screen = record {
  framebuffer = record { byte = λ i. 0; len = 64 };
  bytes_per_pixel = 1;
  stride = 2;
}

abbrev low_window : Surface
low_window = record {
  x = pos 0;
  y = pos 30;
  width = 1;
  height = 2;
  is_minimized = false;
  buffer = record { byte = λ i. 7 + i; len = 2 };
}

abbrev small_desktop : Desktop
small_desktop = record {
  windows = low_window ∷ [];
  notepad = none;
  taskbar = record {
    x = pos 0;
    y = pos 0;
    width = 2;
    height = 30;
    is_minimized = false;
    buffer = record { byte = λ i. 1; len = 60 };
  };
  bg_buffer = record { byte = λ i. 2; len = 64 };
  bg_width = 2;
  screen_width = pos 2;
}

small_screen-IsDisplay : IsDisplay 2 32 1 small_screen
small_screen-IsDisplay = record {
  screen = record {
    width_lt = omega arith;
    height_lt = omega arith;
    stride_ge = omega arith;
    room = omega arith;
  };
  bpp_eq = refl;
}

small_desktop-IsDesktop : IsDesktop 2 32 1 small_desktop
small_desktop-IsDesktop = record {
  windows =
      ArePlaced.placed
        (record {
          left = 0;
          top = 30;
          x_eq = refl;
          y_eq = refl;
          rect = record { right_le = omega arith; bottom_le = omega arith };
          buffer_room = omega arith;
        })
        ArePlaced.none_placed;
  notepad = IsShown.closed;
  taskbar = record {
    left = 0;
    top = 0;
    x_eq = refl;
    y_eq = refl;
    rect = record { right_le = omega arith; bottom_le = omega arith };
    buffer_room = omega arith;
  };
  taskbar_width = refl;
  taskbar_height = refl;
  screen_width = refl;
  bg_width = refl;
  bg_room = omega arith;
}

abbrev damage : List Rect
damage = at 0 29 2 3 ∷ []

paint_all-shown_example : byte_at (paint_all small_screen small_desktop damage) 0 31 0 ≡ 8
paint_all-shown_example =
    paint_all-shown 2 32 1 small_screen small_desktop damage 0 31 0 small_screen-IsDisplay
      small_desktop-IsDesktop
      (AreRects.rect_and 0 29 2 3 (record { right_le = omega arith; bottom_le = omega arith })
        AreRects.no_rects)
      (omega arith) (omega arith)

-- A window below another that the point misses.
abbrev lower : Window
lower = new (pos 0) (pos 40) 50 50

abbrev upper : Window
upper = new (pos 30) (pos 60) 50 50

abbrev two_windows : WindowManager
two_windows = record { windows = lower ∷ upper ∷ []; screen_width = 100; screen_height = 100 }

-- A stroke of a new canvas near its corner.
paint-near_example :
    (length (paint (pos 0) (pos 1) Paint.new).canvas ≡ 72900)
    × (get_elem? (paint (pos 0) (pos 1) Paint.new).canvas (2 * 270 + 1) ≡ (
        if near 0 1 1 && near 1 1 2
        then some Paint.new.brush_color
        else get_elem? Paint.new.canvas (2 * 270 + 1)))
unfolding Paint.new
paint-near_example =
    paint-near Paint.new 0 1 1 1 2 (length-replicate 72900 white) refl (omega arith) (omega arith)
      (omega arith) (omega arith) (omega arith)
