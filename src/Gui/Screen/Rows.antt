-- ===== src/Gui/Screen/Rows.antt =====
-- The rows that kernel/src/gui/buffer.rs copies, as pixels.
pub mod Blit
use kafka_os.Base.{
  ℕ, zero, suc, ◌+◌, ◌-◌, ◌*◌, ◌^◌, ◌≤◌, ◌<◌, ◌≡◌, ◌∙◌, ◌⊎◌, inl, inr, refl, sym, ap, Bool, true,
  false, ◌&&◌, ◌||◌, not, ltb, leb, ◌==◌, if◌then◌else◌, arith, Bool-cases, dec_lt, dec_le,
}
use kafka_os.Base.Int.{ℤ, pos, add_i32, sub_i32, add_i32-pos, sub_i32-pos}
use kafka_os.Gui.Geometry.{Rect}
use kafka_os.Gui.Screen.{Bytes, FrameBufferDisplay, copy_row, blit_rows, as_usize}

pub mul_step : (a b k : ℕ) → a < b → a * k + k ≤ b * k
mul_step a b k h = grind arith

pub mul_mono : (a b k : ℕ) → a ≤ b → a * k ≤ b * k
mul_mono a b k h = grind arith

add_mul : (a b k : ℕ) → (a + b) * k ≡ a * k + b * k
add_mul a b k = grind arith

-- Between two multiples of the pixel size.
pixel_bounds :
    (q n p c k : ℕ)
    → c < k
    → (leb (q * k) (p * k + c) && ltb (p * k + c) (q * k + n * k)) ≡ (leb q p && ltb p (q + n))
pixel_bounds q n p c k h = elim (dec_le q p) [
  | yes qp ↦
      let low = mul_mono q p k qp in
      let sum = add_mul q n k in
      elim (dec_lt p (q + n)) [
        | yes pn ↦ let high = mul_step p (q + n) k pn in ground arith
        | no pn ↦ let high = mul_mono (q + n) p k (omega arith) in ground arith
      ]
  | no qp ↦ let low = mul_step p q k (omega arith) in ground arith
]

-- Between two places of a row.
row_bounds :
    (y x n py px stride : ℕ)
    → px < stride
    → x + n ≤ stride
    → (leb (y * stride + x) (py * stride + px) && ltb (py * stride + px) (y * stride + x + n))
      ≡ ((py == y) && (leb x px && ltb px (x + n)))
row_bounds y x n py px stride h k = elim (dec_lt py y) [
  | yes lt ↦ let low = mul_step py y stride lt in ground arith
  | no ge ↦ elim (dec_lt y py) [
    | yes lt ↦ let low = mul_step y py stride lt in ground arith
    | no le ↦ let same : py ≡ y = omega arith in rw same (ground arith)
  ]
]

-- The position of a byte of a pixel.
abbrev pub place : ℕ → ℕ → ℕ → ℕ → ℕ → ℕ
place stride bpp px py c = (py * stride + px) * bpp + c

in_row :
    (stride bpp y x n px py c : ℕ)
    → c < bpp
    → px < stride
    → x + n ≤ stride
    → (let start = (y * stride + x) * bpp in
        leb start (place stride bpp px py c) && ltb (place stride bpp px py c) (start + n * bpp))
      ≡ ((py == y) && (leb x px && ltb px (x + n)))
in_row stride bpp y x n px py c hc hx hn =
    pixel_bounds (y * stride + x) n (py * stride + px) c bpp hc
    ∙ row_bounds y x n py px stride hx hn

-- A byte of a row comes from the byte of the same pixel of the picture.
same_pixel :
    (stride bpp width y d e c : ℕ) (x sx sy : ℕ)
    → x ≡ sx + d
    → (y * width + d) * bpp + ((sy * stride + (x + e)) * bpp + c - (sy * stride + x) * bpp)
      ≡ (y * width + (d + e)) * bpp + c
same_pixel stride bpp width y d e c x sx sy h =
    let one = add_mul (sy * stride + x) e bpp in
    let two = add_mul (y * width + d) e bpp in omega arith

abbrev pub byte_at : FrameBufferDisplay → ℕ → ℕ → ℕ → ℕ
byte_at d px py c = d.framebuffer.byte (place d.stride d.bytes_per_pixel px py c)

-- A display on which the tested pixels are those of a picture, and the others are as before.
pub record Painted (d d' : FrameBufferDisplay) (test : ℕ → ℕ → Bool) (picture : ℕ → ℕ → ℕ → ℕ)
    : Type 0 where
  pub stride_eq : d'.stride ≡ d.stride
  pub bpp_eq : d'.bytes_per_pixel ≡ d.bytes_per_pixel
  pub len_eq : d'.framebuffer.len ≡ d.framebuffer.len
  pub pixel :
      (px py c : ℕ)
      → px < d.stride
      → c < d.bytes_per_pixel
      → byte_at d' px py c ≡ (if test px py then picture px py c else byte_at d px py c)

-- A rectangle of whole numbers, and a picture that has its pixels, on a display that has them.
pub record IsBlit (stride bpp len : ℕ) (x y w h : ℕ) (source : Bytes) (width sx sy : ℕ)
    : Type 0 where
  pub right_le : x + w ≤ stride
  pub left_le : sx ≤ x
  pub top_le : sy ≤ y
  pub right_in : x + w ≤ sx + width
  pub screen_room : (y + h) * stride * bpp ≤ len
  pub source_room : (y + h - sy) * width * bpp ≤ source.len
  pub x_lt : x + w < 2 ^ 31
  pub y_lt : y + h < 2 ^ 31

abbrev pub in_span : ℕ → ℕ → ℕ → Bool
in_span a n p = leb a p && ltb p (a + n)

-- The last byte of a row lies before the row behind it.
row_room :
    (y x n stride bpp last len : ℕ)
    → x + n ≤ stride
    → y < last
    → last * stride * bpp ≤ len
    → (y * stride + x) * bpp + n * bpp ≤ len
row_room y x n stride bpp last len h k l =
    let row = mul_step y last stride k in
    let bytes = mul_mono (y * stride + x + n) (last * stride) bpp (omega arith) in
    let sum = add_mul (y * stride + x) n bpp in omega arith

-- The picture behind a rectangle.
abbrev pub picture_of : Bytes → ℕ → ℕ → ℕ → ℕ → ℕ → ℕ → ℕ → ℕ
picture_of source width bpp sx sy px py c = source.byte (place width bpp (px - sx) (py - sy) c)

copied_byte :
    (source : Bytes) (stride bpp width y d e c x sx sy : ℕ)
    → x ≡ sx + d
    → source.byte (
        (y * width + d) * bpp
        + (place stride bpp (x + e) (sy + y) c - ((sy + y) * stride + x) * bpp))
      ≡ picture_of source width bpp sx sy (x + e) (sy + y) c
copied_byte source stride bpp width y d e c x sx sy h =
    let at : (y * width + d) * bpp
          + (place stride bpp (x + e) (sy + y) c - ((sy + y) * stride + x) * bpp)
        ≡ place width bpp (x + e - sx) (sy + y - sy) c =
      same_pixel stride bpp width y d e c x sx (sy + y) h ∙ ap2_place in
    ap source.byte at
  where
    ap2_place : (y * width + (d + e)) * bpp + c ≡ place width bpp (x + e - sx) (sy + y - sy) c
    ap2_place =
        let px : x + e - sx ≡ d + e = omega arith in
        let py : sy + y - sy ≡ y = omega arith in rw (px, py) refl

copied_at :
    (source : Bytes) (stride bpp width c px py y d e x sx sy : ℕ)
    → px ≡ x + e
    → py ≡ sy + y
    → x ≡ sx + d
    → source.byte ((y * width + d) * bpp + (place stride bpp px py c - (py * stride + x) * bpp))
      ≡ picture_of source width bpp sx sy px py c
copied_at source stride bpp width c px py y d e x sx sy hp hq hx =
    rw (hp, hq) (copied_byte source stride bpp width y d e c x sx sy hx)

if_same :
    (b : Bool) (u u' v : ℕ) → (b ≡ true → u ≡ u') → (if b then u else v) ≡ (if b then u' else v)
if_same true u u' v h = h refl
if_same false u u' v h = refl

row-Painted :
    (d : FrameBufferDisplay) (x y w h : ℕ) (source : Bytes) (width sx sy row : ℕ)
    → IsBlit d.stride d.bytes_per_pixel d.framebuffer.len x y w h source width sx sy
    → row < h
    → Painted d
        (record d {
          framebuffer =
              copy_row d.framebuffer source
                (((y + row) * d.stride + x) * d.bytes_per_pixel)
                (((y + row - sy) * width + (x - sx)) * d.bytes_per_pixel)
                (w * d.bytes_per_pixel);
        })
        (λ px py. (py == y + row) && in_span x w px)
        (picture_of source width d.bytes_per_pixel sx sy)
unfolding copy_row
row-Painted d x y w h source width sx sy row b hr =
    let bpp = d.bytes_per_pixel in
    let screen =
      row_room (y + row) x w d.stride bpp (y + h) d.framebuffer.len b.right_le (omega arith)
        b.screen_room in
    let left_le = b.left_le in
    let top_le = b.top_le in
    let right_in = b.right_in in
    let picture =
      row_room (y + row - sy) (x - sx) w width bpp (y + h - sy) source.len (omega arith)
        (omega arith) b.source_room in
    let screen_test : leb (((y + row) * d.stride + x) * bpp + w * bpp) d.framebuffer.len ≡ true =
      ground arith in
    let picture_test : leb (((y + row - sy) * width + (x - sx)) * bpp + w * bpp) source.len ≡ true =
      ground arith in
    rw (screen_test, picture_test)
      (record {
        stride_eq = refl;
        bpp_eq = refl;
        len_eq = refl;
        pixel = λ px py c hx hc. rw (in_row d.stride bpp (y + row) x w px py c hc hx b.right_le) (
            if_same ((py == y + row) && in_span x w px) _ _ _ (λ inside.
              let same_row : y + row ≡ py = ground arith in
              rw same_row (
                copied_at source d.stride bpp width c px py (py - sy) (x - sx) (px - x) x sx sy
                  (ground arith) (ground arith) (omega arith))));
      })
