-- ===== src/Gui/Paint/Square.antt =====
-- The rows of the brush of kernel/src/gui/paint.rs, and the square that they make.
use kafka_os.Base.{
  ℕ, zero, suc, ◌+◌, ◌*◌, ◌^◌, ◌<◌, ◌≡◌, ◌∙◌, refl, sym, ap, Bool, true, false, ◌&&◌, ◌||◌, Option,
  some, List, ltb, leb, ◌==◌, if◌then◌else◌, length, get_elem?, arith,
}
use kafka_os.Base.Int.{pos, sub_ℕ}
use kafka_os.Gui.Paint.{CanvasPixel, PaintApp, put_pixel, paint_cols, paint_rows, paint}
use kafka_os.Gui.Paint.Brush.{put_pixel-off, put_pixel-length, add_off, next_off, first_off}

-- A canvas on which the tested pixels have a color, and the others are as before.
pub record Painted (canvas canvas' : List CanvasPixel) (color : CanvasPixel) (test : ℕ → ℕ → Bool)
    : Type 0 where
  pub same_length : length canvas' ≡ length canvas
  pub pixel :
      (x y : ℕ)
      → x < 270
      → y < 270
      → get_elem? canvas' (y * 270 + x)
        ≡ (if test x y then some color else get_elem? canvas (y * 270 + x))

either :
    (t u : Bool) (a b : Option CanvasPixel)
    → (if u then a else if t then a else b) ≡ (if t || u then a else b)
either true true a b = refl
either true false a b = refl
either false true a b = refl
either false false a b = refl

Painted-twice :
    (canvas canvas1 canvas2 : List CanvasPixel) (color : CanvasPixel) (t u v : ℕ → ℕ → Bool)
    → ((x y : ℕ) → (t x y || u x y) ≡ v x y)
    → Painted canvas canvas1 color t
    → Painted canvas1 canvas2 color u
    → Painted canvas canvas2 color v
Painted-twice canvas canvas1 canvas2 color t u v same p q = record {
  same_length = q.same_length ∙ p.same_length;
  pixel = λ x y hx hy.
      q.pixel x y hx hy
      ∙ ap (λ (o : Option CanvasPixel). if u x y then some color else o) (p.pixel x y hx hy)
      ∙ either (t x y) (u x y) (some color) (get_elem? canvas (y * 270 + x))
      ∙ ap (λ (b : Bool). if b then some color else get_elem? canvas (y * 270 + x)) (same x y);
}

Painted-none :
    (canvas : List CanvasPixel) (color : CanvasPixel) (t : ℕ → ℕ → Bool)
    → ((x y : ℕ) → t x y ≡ false)
    → Painted canvas canvas color t
Painted-none canvas color t nothing = record {
  same_length = refl;
  pixel = λ x y hx hy.
      sym
        (ap (λ (b : Bool). if b then some color else get_elem? canvas (y * 270 + x)) (nothing x y));
}

put_pixel-Painted :
    (canvas : List CanvasPixel) (color : CanvasPixel) (a n b m : ℕ)
    → length canvas ≡ 72900
    → Painted canvas
        (put_pixel canvas color (sub_ℕ a n) (sub_ℕ b m))
        color
        (λ x y. (a == x + n) && (b == y + m))
put_pixel-Painted canvas color a n b m size = record {
  same_length = put_pixel-length canvas color (sub_ℕ a n) (sub_ℕ b m);
  pixel = λ x y hx hy. put_pixel-off canvas color a n b m x y size hx hy;
}

-- A place from a center and an offset on, less the radius.
abbrev in_brush : ℕ → ℕ → ℕ → ℕ → ℕ → Bool
in_brush c k count n x = leb (c + k) (x + n) && ltb (x + n) (c + k + count)

next_col :
    (c k count n x : ℕ) (row : Bool)
    → (((c + k == x + n) && row) || (in_brush c (k + 1) count n x && row))
      ≡ (in_brush c k (suc count) n x && row)
next_col c k count n x row = ground arith

next_row :
    (c k count m y : ℕ) (col : Bool)
    → ((col && (c + k == y + m)) || (col && in_brush c (k + 1) count m y))
      ≡ (col && in_brush c k (suc count) m y)
next_row c k count m y col = ground arith

nothing_left : (c k n x : ℕ) (row : Bool) → (in_brush c k 0 n x && row) ≡ false
nothing_left c k n x row = ground arith

no_row_left : (c k m y : ℕ) (col : Bool) → (col && in_brush c k 0 m y) ≡ false
no_row_left c k m y col = ground arith

paint_cols-Painted :
    (canvas : List CanvasPixel) (color : CanvasPixel) (cx b m k n count : ℕ)
    → length canvas ≡ 72900
    → cx + k + count < 2 ^ 31
    → n < 2 ^ 31
    → Painted canvas
        (paint_cols canvas color (pos cx) (sub_ℕ b m) (sub_ℕ k n) count)
        color
        (λ x y. in_brush cx k count n x && (b == y + m))
unfolding paint_cols
paint_cols-Painted canvas color cx b m k n zero size h l =
    Painted-none canvas color _ (λ x y. nothing_left cx k n x (b == y + m))
paint_cols-Painted canvas color cx b m k n (suc count) size h l =
    let first = put_pixel-Painted canvas color (cx + k) n b m size in
    rw (add_off cx k n (omega arith) l, next_off k n (omega arith) l)
      (Painted-twice canvas (put_pixel canvas color (sub_ℕ (cx + k) n) (sub_ℕ b m)) _ color _ _ _
        (λ x y. next_col cx k count n x (b == y + m)) first
        (paint_cols-Painted (put_pixel canvas color (sub_ℕ (cx + k) n) (sub_ℕ b m)) color cx b m
          (k + 1) n count (first.same_length ∙ size) (omega arith) l))

paint_rows-Painted :
    (canvas : List CanvasPixel) (color : CanvasPixel) (cx cy cols n k count : ℕ)
    → length canvas ≡ 72900
    → cx + cols < 2 ^ 31
    → cy + k + count < 2 ^ 31
    → n < 2 ^ 31
    → Painted canvas
        (paint_rows canvas color (pos cx) (pos cy) (sub_ℕ 0 n) cols (sub_ℕ k n) count)
        color
        (λ x y. in_brush cx 0 cols n x && in_brush cy k count n y)
unfolding paint_rows
paint_rows-Painted canvas color cx cy cols n k zero size h g l =
    Painted-none canvas color _ (λ x y. no_row_left cy k n y (in_brush cx 0 cols n x))
paint_rows-Painted canvas color cx cy cols n k (suc count) size h g l =
    let first = paint_cols-Painted canvas color cx (cy + k) n 0 n cols size (omega arith) l in
    rw (add_off cy k n (omega arith) l, next_off k n (omega arith) l)
      (Painted-twice canvas (paint_cols canvas color (pos cx) (sub_ℕ (cy + k) n) (sub_ℕ 0 n) cols) _
        color _ _ _ (λ x y. next_row cy k count n y (in_brush cx 0 cols n x)) first
        (paint_rows-Painted (paint_cols canvas color (pos cx) (sub_ℕ (cy + k) n) (sub_ℕ 0 n) cols)
          color cx cy cols n (k + 1) count (first.same_length ∙ size) h (omega arith) l))

-- Within the radius of the brush, in one direction.
abbrev pub near : ℕ → ℕ → ℕ → Bool
near c n x = leb c (x + n) && leb x (c + n)

near_brush : (c n x : ℕ) → in_brush c 0 (2 * n + 1) n x ≡ near c n x
near_brush c n x = ground arith

-- A stroke at a place of the canvas, with a brush whose radius is not negative, colors the pixels of the canvas that
-- are at most the radius away in both directions, and no other; the canvas keeps its size.
pub paint-near :
    (app : PaintApp) (cx cy n x y : ℕ)
    → length app.canvas ≡ 72900
    → app.brush_radius ≡ pos n
    → n < 2 ^ 29
    → cx < 270
    → cy < 270
    → x < 270
    → y < 270
    → (length (paint (pos cx) (pos cy) app).canvas ≡ 72900)
      × (get_elem? (paint (pos cx) (pos cy) app).canvas (y * 270 + x) ≡ (
          if near cx n x && near cy n y
          then some app.brush_color
          else get_elem? app.canvas (y * 270 + x)))
unfolding paint
paint-near app cx cy n x y size radius small hcx hcy hx hy =
    let p =
      paint_rows-Painted app.canvas app.brush_color cx cy (2 * n + 1) n 0 (2 * n + 1) size
        (omega arith) (omega arith) (omega arith) in
    rw (radius, first_off n (omega arith))
      (
        p.same_length ∙ size,
        p.pixel x y hx hy
            ∙ ap
                (λ (b : Bool).
                  if b && in_brush cy 0 (2 * n + 1) n y
                  then some app.brush_color
                  else get_elem? app.canvas (y * 270 + x))
                (near_brush cx n x)
            ∙ ap
                (λ (b : Bool).
                  if near cx n x && b
                  then some app.brush_color
                  else get_elem? app.canvas (y * 270 + x))
                (near_brush cy n y),
      )
