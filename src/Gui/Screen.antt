-- ===== src/Gui/Screen.antt =====
-- The frame buffer of kernel/src/gui/buffer.rs, and how kernel/src/gui/graphics.rs paints a damaged rectangle
-- on it. Positions of bytes in memory do not wrap. The cursor, which is drawn last, is not modelled.
pub mod Rows
pub mod Picture
pub mod Drawn
pub mod Compositor
pub mod Covered
pub mod Damage
use kafka_os.Base.{
  ℕ, zero, suc, ◌+◌, ◌-◌, ◌*◌, ◌^◌, Bool, true, false, ◌&&◌, ◌||◌, not, Option, none, some, List,
  [], ◌∷◌, ltb, leb, if◌then◌else◌,
}
use kafka_os.Base.Int.{ℤ, pos, negsuc, add_i32, sub_i32, signed32}
use kafka_os.Gui.Geometry.{Rect, intersection, contains_rect}

-- A slice of bytes, by their positions.
pub record Bytes : Type 0 where
  pub byte : ℕ → ℕ
  pub len : ℕ

pub record FrameBufferDisplay : Type 0 where
  pub framebuffer : Bytes
  pub bytes_per_pixel : ℕ
  pub stride : ℕ

-- `as usize`.
abbrev pub as_usize : ℤ → ℕ
as_usize (pos n) = n
as_usize (negsuc n) = 2 ^ 64 - 1 - n

-- `target[start..start + count].copy_from_slice(&source[from..from + count])`, where both ends are in range.
unfoldable pub copy_row : Bytes → Bytes → ℕ → ℕ → ℕ → Bytes
copy_row target source start from count =
    if leb (start + count) target.len && leb (from + count) source.len
    then record target {
      byte = λ i.
          if leb start i && ltb i (start + count)
          then source.byte (from + (i - start))
          else target.byte i;
    }
    else target

-- The rows of an overlap from an offset on, taken from a picture of `source_width` pixels in a row that
-- stands at a place of the screen.
unfoldable pub blit_rows :
    FrameBufferDisplay → Rect → Bytes → ℕ → ℤ → ℤ → ℕ → ℕ → FrameBufferDisplay
blit_rows d overlap source source_width source_x source_y row zero = d
blit_rows d overlap source source_width source_x source_y row (suc rows) =
    let y = add_i32 overlap.y (pos row) in
    let win_local_y = as_usize (sub_i32 y source_y) in
    let win_local_x = as_usize (sub_i32 overlap.x source_x) in
    let screen_start = (as_usize y * d.stride + as_usize overlap.x) * d.bytes_per_pixel in
    let win_start = (win_local_y * source_width + win_local_x) * d.bytes_per_pixel in
    let copied =
      copy_row d.framebuffer source screen_start win_start
        (as_usize overlap.width * d.bytes_per_pixel) in
    blit_rows (record d { framebuffer = copied }) overlap source source_width source_x source_y
      (row + 1) rows

-- `0..height` is empty where the height is negative.
abbrev pub row_count : ℤ → ℕ
row_count (pos n) = n
row_count (negsuc n) = 0

unfoldable pub blit_partial : FrameBufferDisplay → Rect → Bytes → ℕ → ℤ → ℤ → FrameBufferDisplay
blit_partial d overlap source source_width source_x source_y =
    blit_rows d overlap source source_width source_x source_y 0 (row_count overlap.height)

-- The background has the place of the screen.
unfoldable pub blit_bg : FrameBufferDisplay → Rect → Bytes → ℕ → FrameBufferDisplay
blit_bg d rect bg_buffer bg_width =
    blit_rows d rect bg_buffer bg_width (pos 0) (pos 0) 0 (row_count rect.height)

-- What is painted: a window, the editor or the taskbar.
pub record Surface : Type 0 where
  pub x : ℤ
  pub y : ℤ
  pub width : ℕ
  pub height : ℕ
  pub is_minimized : Bool
  pub buffer : Bytes

abbrev pub surface_rect : Surface → Rect
surface_rect s = record { x = s.x; y = s.y; width = signed32 s.width; height = signed32 s.height }

abbrev blit_overlap : FrameBufferDisplay → Surface → Option Rect → FrameBufferDisplay
blit_overlap d s none = d
blit_overlap d s (some overlap) = blit_partial d overlap s.buffer s.width s.x s.y

unfoldable pub paint_surface : FrameBufferDisplay → Rect → Surface → FrameBufferDisplay
paint_surface d damage s = blit_overlap d s (intersection damage (surface_rect s))

unfoldable pub paint_windows : FrameBufferDisplay → Rect → List Surface → FrameBufferDisplay
paint_windows d damage [] = d
paint_windows d damage (s ∷ windows) =
    paint_windows (if s.is_minimized then d else paint_surface d damage s) damage windows

unfoldable pub covered_by : List Surface → Rect → Bool
covered_by [] damage = false
covered_by (s ∷ windows) damage =
    (not s.is_minimized && contains_rect (surface_rect s) damage) || covered_by windows damage

-- The desktop as the compositor has it: the windows from the bottom to the top, the editor if it is open, the
-- taskbar, and the picture of the background.
pub record Desktop : Type 0 where
  pub windows : List Surface
  pub notepad : Option Surface
  pub taskbar : Surface
  pub bg_buffer : Bytes
  pub bg_width : ℕ
  pub screen_width : ℤ

abbrev pub task_rect : Desktop → Rect
task_rect k = record { x = pos 0; y = pos 0; width = k.screen_width; height = pos 30 }

abbrev pub under_windows : Desktop → Rect → Bool
under_windows k damage = contains_rect (task_rect k) damage || covered_by k.windows damage

abbrev pub paint_notepad : FrameBufferDisplay → Rect → Option Surface → FrameBufferDisplay
paint_notepad d damage none = d
paint_notepad d damage (some s) = paint_surface d damage s

abbrev pub at_corner : Surface → Surface
at_corner s = record s { x = pos 0; y = pos 0 }

-- The background where it is asked for, the windows, the editor, the taskbar.
unfoldable pub paint_layers : FrameBufferDisplay → Desktop → Rect → Bool → FrameBufferDisplay
paint_layers d k damage fully_covered =
    let below = if fully_covered then d else blit_bg d damage k.bg_buffer k.bg_width in
    let painted = paint_windows below damage k.windows in
    paint_surface (paint_notepad painted damage k.notepad) damage (at_corner k.taskbar)

-- The editor is asked only where nothing else covers the rectangle. Its `continue` ends the round.
abbrev pub paint_with :
    FrameBufferDisplay → Desktop → Rect → Bool → Option Surface → FrameBufferDisplay
paint_with d k damage true notepad = paint_layers d k damage true
paint_with d k damage false none = paint_layers d k damage false
paint_with d k damage false (some s) =
    if s.is_minimized then d else paint_layers d k damage (contains_rect (surface_rect s) damage)

unfoldable pub paint_damage : FrameBufferDisplay → Desktop → Rect → FrameBufferDisplay
paint_damage d k damage = paint_with d k damage (under_windows k damage) k.notepad

unfoldable pub paint_all : FrameBufferDisplay → Desktop → List Rect → FrameBufferDisplay
paint_all d k [] = d
paint_all d k (damage ∷ rects) = paint_all (paint_damage d k damage) k rects
