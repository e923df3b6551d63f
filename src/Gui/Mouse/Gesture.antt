-- ===== src/Gui/Mouse/Gesture.antt =====
-- What `activate_mouse` of kernel/src/gui/graphics.rs keeps: the cursor on the screen and the order of events.
use kafka_os.Base.{
  ℕ, ◌-◌, ◌^◌, ◌≤◌, ◌<◌, ◌≡◌, ◌∙◌, refl, sym, ap, Bool, true, false, Option, none, some, List, [],
  ◌∷◌, ◌++◌, if◌then◌else◌, ◌>>=◌, arith, Option-cases, inl, inr,
}
use kafka_os.Base.Int.{ℤ, pos, ◌/ℤ◌, ◌≤ℤ◌, ltb_ℤ, add_i32, sub_i32-pos}
use kafka_os.Gui.Mouse.{
  RawMouse, left, left_released, left_pressed, MousePacket, Mouse, sensitivity, clamp, cursor_rect,
  button_events, handle_packet, handle_packets, start, activate_mouse,
}

-- Whether the left button is down after an event, where the event can come: a press while it is up, then
-- reports that it is held, then a release.
unfoldable pub after_event : Bool → RawMouse → Option Bool
after_event false (left x y) = some true
after_event true (left_pressed x y) = some true
after_event true (left_released x y) = some false
after_event down e = none

unfoldable pub after_events : Bool → List RawMouse → Option Bool
after_events down [] = some down
after_events down (e ∷ es) = do down' ← after_event down e; after_events down' es

after_events-append :
    (down : Bool) (es fs : List RawMouse) (now : Bool)
    → after_events down es ≡ some now
    → after_events down (es ++ fs) ≡ after_events now fs
unfolding after_events
after_events-append down [] fs now h =
    let same : down ≡ now = cc in ap (λ (d : Bool). after_events d fs) same
after_events-append down (e ∷ es) fs now h = elim (Option-cases (after_event down e)) [
  | inl nothing ↦ absurd_bind down e es fs now nothing h
  | inr (down', first) ↦
      let rest : after_events down' es ≡ some now =
        sym (ap (λ (o : Option Bool). o >>= (λ d. after_events d es)) first) ∙ h in
      ap (λ (o : Option Bool). o >>= (λ d. after_events d (es ++ fs))) first
      ∙ after_events-append down' es fs now rest
]
  where
    absurd_bind :
        (down : Bool) (e : RawMouse) (es fs : List RawMouse) (now : Bool)
        → after_event down e ≡ none
        → after_events down (e ∷ es) ≡ some now
        → after_events down (e ∷ es ++ fs) ≡ after_events now fs
    absurd_bind down e es fs now nothing h =
        let stop : none ≡ some now =
          sym (ap (λ (o : Option Bool). o >>= (λ d. after_events d es)) nothing) ∙ h in
        cc

button_events-after :
    (left_btn was_down : Bool) (x y : ℤ)
    → after_events was_down (button_events left_btn was_down x y) ≡ some left_btn
unfolding after_events after_event button_events
button_events-after false false x y = refl
button_events-after false true x y = refl
button_events-after true false x y = refl
button_events-after true true x y = refl

pub clamp-some :
    (v low high : ℤ)
    → low ≤ℤ high
    → (v' : ℤ) × (clamp v low high ≡ some v') × (low ≤ℤ v') × (v' ≤ℤ high)
unfolding clamp
clamp-some v low high h = (
  if ltb_ℤ v low then low else if ltb_ℤ high v then high else v,
  ground arith,
  ground arith,
  ground arith,
)

-- A screen with room for the cursor to the right of and below its middle.
abbrev pub IsScreen : ℕ → ℕ → Type 0
IsScreen w h = (34 ≤ w) × (w < 2 ^ 31) × (42 ≤ h) × (h < 2 ^ 31)

-- The cursor is on the screen, the compositor is told where, and the events tell how the button is.
pub record IsMouse (w h : ℕ) (m : Mouse) : Type 0 where
  pub x_ge : pos 0 ≤ℤ m.cursor_x
  pub x_le : m.cursor_x ≤ℤ pos (w - 17)
  pub y_ge : pos 0 ≤ℤ m.cursor_y
  pub y_le : m.cursor_y ≤ℤ pos (h - 21)
  pub mouse_x_eq : m.mouse_x ≡ m.cursor_x
  pub mouse_y_eq : m.mouse_y ≡ m.cursor_y
  pub events : after_events false m.mouse_events ≡ some m.left_button_was_down

handle_packet-IsMouse :
    (w h : ℕ) (m : Mouse) (packet : MousePacket)
    → IsScreen w h
    → IsMouse w h m
    → (m' : Mouse) × (handle_packet (pos w) (pos h) m packet ≡ some m') × IsMouse w h m'
unfolding handle_packet
handle_packet-IsMouse w h m packet (w_ge, w_lt, h_ge, h_lt) hm =
    let dx = add_i32 m.cursor_x (packet.x /ℤ sensitivity) in
    let dy = add_i32 m.cursor_y (packet.y /ℤ sensitivity) in
    let (x, ex, x_ge, x_le) = clamp-some dx (pos 0) (pos (w - 17)) (omega arith) in
    let (y, ey, y_ge, y_le) = clamp-some dy (pos 0) (pos (h - 21)) (omega arith) in
    let events = button_events packet.left_btn m.left_button_was_down m.cursor_x m.cursor_y in
    (
      record {
        cursor_x = x;
        cursor_y = y;
        left_button_was_down = packet.left_btn;
        mouse_x = x;
        mouse_y = y;
        mouse_events = m.mouse_events ++ events;
        damage_queue = m.damage_queue ++ (cursor_rect m.cursor_x m.cursor_y ∷ cursor_rect x y ∷ []);
      },
      rw (sub_i32-pos w 17 (omega arith) w_lt, sub_i32-pos h 21 (omega arith) h_lt, ex, ey) refl,
      record {
        x_ge = x_ge;
        x_le = x_le;
        y_ge = y_ge;
        y_le = y_le;
        mouse_x_eq = refl;
        mouse_y_eq = refl;
        events =
            after_events-append false m.mouse_events events m.left_button_was_down hm.events
            ∙ button_events-after packet.left_btn m.left_button_was_down m.cursor_x m.cursor_y;
      },
    )

handle_packets-IsMouse :
    (w h : ℕ) (m : Mouse) (packets : List MousePacket)
    → IsScreen w h
    → IsMouse w h m
    → (m' : Mouse) × (handle_packets (pos w) (pos h) m packets ≡ some m') × IsMouse w h m'
unfolding handle_packets
handle_packets-IsMouse w h m [] hs hm = (m, refl, hm)
handle_packets-IsMouse w h m (packet ∷ packets) hs hm =
    let (m1, e1, h1) = handle_packet-IsMouse w h m packet hs hm in
    let (m2, e2, h2) = handle_packets-IsMouse w h m1 packets hs h1 in (m2, rw e1 e2, h2)

start-IsMouse : (w h : ℕ) → IsScreen w h → IsMouse w h (start (pos w) (pos h))
unfolding start after_events ◌/ℤ◌
start-IsMouse w h (w_ge, w_lt, h_ge, h_lt) = record {
  x_ge = omega arith;
  x_le = omega arith;
  y_ge = omega arith;
  y_le = omega arith;
  mouse_x_eq = refl;
  mouse_y_eq = refl;
  events = refl;
}

-- On a screen of at least 34 by 42 pixels, smaller than 2 ^ 31 in each direction, no sequence of packets
-- stops the mouse with a panic. The whole cursor stays on the screen, the compositor is told its place, and
-- the events are in order: presses of the left button alternate with its releases, what lies between them
-- tells that the button is held, and the last event tells how the button is.
pub activate_mouse-IsMouse :
    (w h : ℕ) (packets : List MousePacket)
    → IsScreen w h
    → (m : Mouse) × (activate_mouse (pos w) (pos h) packets ≡ some m) × IsMouse w h m
unfolding activate_mouse
activate_mouse-IsMouse w h packets hs =
    handle_packets-IsMouse w h (start (pos w) (pos h)) packets hs (start-IsMouse w h hs)
