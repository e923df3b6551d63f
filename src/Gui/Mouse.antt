-- ===== src/Gui/Mouse.antt =====
-- The mouse of the desktop: `activate_mouse` of kernel/src/gui/graphics.rs. The locks, the atomics and the
-- waker of the compositor are not modelled: what they hold is the state. `none` is a failed assertion of
-- `clamp`.
pub mod Gesture
pub mod Packets
use kafka_os.Base.{
  ℕ, Bool, true, false, ◌&&◌, not, Option, none, some, List, [], ◌∷◌, ◌++◌, if◌then◌else◌, ◌>>=◌,
}
use kafka_os.Base.Int.{ℤ, pos, ◌/ℤ◌, ltb_ℤ, leb_ℤ, add_i32, sub_i32}
use kafka_os.Gui.Geometry.{Rect}

pub data RawMouse : Type 0 where
  left : ℤ → ℤ → RawMouse
  left_released : ℤ → ℤ → RawMouse
  left_pressed : ℤ → ℤ → RawMouse
  right : ℤ → ℤ → RawMouse
  right_released : ℤ → ℤ → RawMouse
  middle : ℤ → ℤ → RawMouse
  middle_released : ℤ → ℤ → RawMouse

pub record MousePacket : Type 0 where
  pub x : ℤ
  pub y : ℤ
  pub left_btn : Bool
  pub right_btn : Bool

pub record Mouse : Type 0 where
  pub cursor_x : ℤ
  pub cursor_y : ℤ
  pub left_button_was_down : Bool
  pub mouse_x : ℤ
  pub mouse_y : ℤ
  pub mouse_events : List RawMouse
  pub damage_queue : List Rect

abbrev pub cursor_width : ℤ
cursor_width = pos 17

abbrev pub cursor_height : ℤ
cursor_height = pos 21

abbrev pub sensitivity : ℤ
sensitivity = pos 1

-- `Ord::clamp`, whose assertion is that the bounds are in order.
unfoldable pub clamp : ℤ → ℤ → ℤ → Option ℤ
clamp v low high =
    if leb_ℤ low high
    then some (if ltb_ℤ v low then low else if ltb_ℤ high v then high else v)
    else none

abbrev pub cursor_rect : ℤ → ℤ → Rect
cursor_rect x y = record { x = x; y = y; width = cursor_width; height = cursor_height }

-- What the button says now, and what it said before.
unfoldable pub button_events : Bool → Bool → ℤ → ℤ → List RawMouse
button_events left_btn was_down x y =
    if left_btn && not was_down
    then left x y ∷ []
    else if not left_btn && was_down
    then left_released x y ∷ []
    else if left_btn && was_down
    then left_pressed x y ∷ []
    else []

unfoldable pub handle_packet : ℤ → ℤ → Mouse → MousePacket → Option Mouse
handle_packet screen_width screen_height m packet = do
  let events = button_events packet.left_btn m.left_button_was_down m.cursor_x m.cursor_y
  x ←
      clamp (add_i32 m.cursor_x (packet.x /ℤ sensitivity)) (pos 0)
        (sub_i32 screen_width cursor_width)
  y ←
      clamp (add_i32 m.cursor_y (packet.y /ℤ sensitivity)) (pos 0)
        (sub_i32 screen_height cursor_height)
  some (record {
    cursor_x = x;
    cursor_y = y;
    left_button_was_down = packet.left_btn;
    mouse_x = x;
    mouse_y = y;
    mouse_events = m.mouse_events ++ events;
    damage_queue = m.damage_queue ++ (cursor_rect m.cursor_x m.cursor_y ∷ cursor_rect x y ∷ []);
  })

unfoldable pub handle_packets : ℤ → ℤ → Mouse → List MousePacket → Option Mouse
handle_packets screen_width screen_height m [] = some m
handle_packets screen_width screen_height m (packet ∷ packets) = do
  m' ← handle_packet screen_width screen_height m packet
  handle_packets screen_width screen_height m' packets

unfoldable pub start : ℤ → ℤ → Mouse
start screen_width screen_height =
    let x = screen_width /ℤ pos 2 in
    let y = screen_height /ℤ pos 2 in
    record {
      cursor_x = x;
      cursor_y = y;
      left_button_was_down = false;
      mouse_x = x;
      mouse_y = y;
      mouse_events = [];
      damage_queue = cursor_rect x y ∷ [];
    }

-- The loop over the packets of the stream, until it ends.
unfoldable pub activate_mouse : ℤ → ℤ → List MousePacket → Option Mouse
activate_mouse screen_width screen_height packets =
    handle_packets screen_width screen_height (start screen_width screen_height) packets
