-- ===== src/Gui/Paint.antt =====
-- `PaintApp` of kernel/src/gui/paint.rs and what a click does with it. What it draws into its window is not
-- modelled. The canvas has a pixel for each of its places, so that no index is out of range.
pub mod Brush
pub mod Square
use kafka_os.Base.{
  ℕ, zero, suc, ◌+◌, ◌*◌, Bool, true, false, ◌&&◌, Option, none, some, List, [], ◌∷◌, ltb,
  if◌then◌else◌, length, get_elem?, set, replicate,
}
use kafka_os.Base.Int.{ℤ, pos, negsuc, add_i32, sub_i32, leb_ℤ, ltb_ℤ, ◌/ℤ◌}

pub record CanvasPixel : Type 0 where
  pub r : ℕ
  pub g : ℕ
  pub b : ℕ

abbrev rgb : ℕ → ℕ → ℕ → CanvasPixel
rgb r g b = record { r = r; g = g; b = b }

abbrev pub white : CanvasPixel
white = rgb 255 255 255

abbrev palette : List CanvasPixel
palette =
    rgb 0 0 0
    ∷ rgb 255 255 255
    ∷ rgb 255 0 0
    ∷ rgb 0 200 0
    ∷ rgb 0 100 255
    ∷ rgb 255 255 0
    ∷ rgb 255 128 0
    ∷ rgb 160 0 210
    ∷ rgb 0 200 200
    ∷ rgb 255 105 180
    ∷ []

pub record PaintApp : Type 0 where
  pub canvas : List CanvasPixel
  pub brush_color : CanvasPixel
  pub brush_radius : ℤ
  pub needs_full_redraw : Bool
  pub needs_redraw : Bool

abbrev pub canvas_w : ℕ
canvas_w = 270

abbrev pub canvas_h : ℕ
canvas_h = 270

unfoldable pub new : PaintApp
new = record {
  canvas = replicate (canvas_w * canvas_h) white;
  brush_color = rgb 0 0 0;
  brush_radius = pos 1;
  needs_full_redraw = true;
  needs_redraw = false;
}

abbrev with_color : PaintApp → Option CanvasPixel → PaintApp
with_color app none = app
with_color app (some c) = record app { brush_color = c }

unfoldable pub set_color : ℕ → PaintApp → PaintApp
set_color idx app = with_color app (get_elem? palette idx)

unfoldable pub set_radius : ℤ → PaintApp → PaintApp
set_radius r app = record app { brush_radius = r }

abbrev pub put_pixel : List CanvasPixel → CanvasPixel → ℤ → ℤ → List CanvasPixel
put_pixel canvas color (pos px) (pos py) =
    if ltb px canvas_w && ltb py canvas_h then set canvas (py * canvas_w + px) color else canvas
put_pixel canvas color (pos px) (negsuc py) = canvas
put_pixel canvas color (negsuc px) py = canvas

-- The pixels of a row of the brush from an offset on, and its rows.
unfoldable pub paint_cols : List CanvasPixel → CanvasPixel → ℤ → ℤ → ℤ → ℕ → List CanvasPixel
paint_cols canvas color cx py dx zero = canvas
paint_cols canvas color cx py dx (suc cols) =
    paint_cols (put_pixel canvas color (add_i32 cx dx) py) color cx py (add_i32 dx (pos 1)) cols

unfoldable pub paint_rows :
    List CanvasPixel → CanvasPixel → ℤ → ℤ → ℤ → ℕ → ℤ → ℕ → List CanvasPixel
paint_rows canvas color cx cy dx cols dy zero = canvas
paint_rows canvas color cx cy dx cols dy (suc rows) =
    paint_rows (paint_cols canvas color cx (add_i32 cy dy) dx cols) color cx cy dx cols
      (add_i32 dy (pos 1)) rows

-- `-r..=r` is empty for a negative radius.
abbrev pub brush_size : ℤ → ℕ
brush_size (pos r) = 2 * r + 1
brush_size (negsuc r) = 0

unfoldable pub paint : ℤ → ℤ → PaintApp → PaintApp
paint cx cy app =
    let first = sub_i32 (pos 0) app.brush_radius in
    let size = brush_size app.brush_radius in
    record app { canvas = paint_rows app.canvas app.brush_color cx cy first size first size }

unfoldable pub clear : PaintApp → PaintApp
clear app = record app { canvas = replicate (canvas_w * canvas_h) white; needs_full_redraw = true }

abbrev title_bar_h : ℤ
title_bar_h = pos 20

abbrev canvas_y_offset : ℤ
canvas_y_offset = pos 40

abbrev swatch_w : ℤ
swatch_w = pos 27

abbrev index_of : ℤ → ℕ
index_of (pos n) = n
index_of (negsuc n) = 0

abbrev on_palette : ℤ → ℤ → Bool
on_palette local_x local_y =
    leb_ℤ title_bar_h local_y
    && (ltb_ℤ local_y canvas_y_offset && (leb_ℤ (pos 0) local_x && ltb_ℤ local_x (pos 270)))

abbrev on_canvas : ℤ → ℤ → Bool
on_canvas canvas_x canvas_y =
    leb_ℤ (pos 0) canvas_x
    && (ltb_ℤ canvas_x (pos canvas_w) && (leb_ℤ (pos 0) canvas_y && ltb_ℤ canvas_y (pos canvas_h)))

-- The palette takes a click of its bar, where the place is not negative; the canvas one of its own.
unfoldable pub handle_paint_click : ℤ → ℤ → ℤ → ℤ → PaintApp → PaintApp
unfolding ◌/ℤ◌
handle_paint_click screen_x screen_y win_x win_y app =
    let local_x = sub_i32 screen_x win_x in
    let local_y = sub_i32 screen_y win_y in
    let canvas_y = sub_i32 local_y canvas_y_offset in
    if on_palette local_x local_y
    then record (set_color (index_of (local_x /ℤ swatch_w)) app) { needs_redraw = true }
    else if on_canvas local_x canvas_y
    then record (paint local_x canvas_y app) { needs_redraw = true }
    else app
