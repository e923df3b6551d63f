-- ===== src/Gui/Screen/Rows/Blit.antt =====
-- `blit_partial` and `blit_bg` of kernel/src/gui/buffer.rs: a rectangle of the screen becomes that of a picture.
use kafka_os.Base.{
  ℕ, zero, suc, ◌+◌, ◌-◌, ◌*◌, ◌≤◌, ◌<◌, ◌≡◌, ◌∙◌, refl, sym, ap, Bool, true, false, ◌&&◌, ◌||◌,
  if◌then◌else◌, arith,
}
use kafka_os.Base.Int.{pos, add_i32-pos, sub_i32-pos}
use kafka_os.Gui.Geometry.{Rect}
use kafka_os.Gui.Screen.{Bytes, FrameBufferDisplay, copy_row, blit_rows, blit_partial, blit_bg}
use kafka_os.Gui.Screen.Rows.{byte_at, Painted, IsBlit, in_span, picture_of, row-Painted}

twice : (t u : Bool) (a b : ℕ) → (if u then a else if t then a else b) ≡ (if t || u then a else b)
twice true true a b = refl
twice true false a b = refl
twice false true a b = refl
twice false false a b = refl

Painted-twice :
    (d d1 d2 : FrameBufferDisplay) (t u : ℕ → ℕ → Bool) (s : ℕ → ℕ → ℕ → ℕ)
    → Painted d d1 t s
    → Painted d1 d2 u s
    → Painted d d2 (λ px py. t px py || u px py) s
Painted-twice d d1 d2 t u s p q = record {
  stride_eq = q.stride_eq ∙ p.stride_eq;
  bpp_eq = q.bpp_eq ∙ p.bpp_eq;
  len_eq = q.len_eq ∙ p.len_eq;
  pixel = λ px py c hx hc.
      q.pixel px py c (rw (p.stride_eq) hx) (rw (p.bpp_eq) hc)
      ∙ ap (λ (b : ℕ). if u px py then s px py c else b) (p.pixel px py c hx hc)
      ∙ twice (t px py) (u px py) (s px py c) (byte_at d px py c);
}

pub Painted-test :
    (d d' : FrameBufferDisplay) (t u : ℕ → ℕ → Bool) (s : ℕ → ℕ → ℕ → ℕ)
    → ((px py : ℕ) → t px py ≡ u px py)
    → Painted d d' t s
    → Painted d d' u s
Painted-test d d' t u s same p = record {
  stride_eq = p.stride_eq;
  bpp_eq = p.bpp_eq;
  len_eq = p.len_eq;
  pixel = λ px py c hx hc.
      p.pixel px py c hx hc
      ∙ ap (λ (b : Bool). if b then s px py c else byte_at d px py c) (same px py);
}

abbrev pub at : ℕ → ℕ → ℕ → ℕ → Rect
at x y w h = record { x = pos x; y = pos y; width = pos w; height = pos h }

-- The display after one row.
abbrev after_row : FrameBufferDisplay → ℕ → ℕ → ℕ → Bytes → ℕ → ℕ → ℕ → ℕ → FrameBufferDisplay
after_row d x y w source width sx sy row = record d {
  framebuffer =
      copy_row d.framebuffer source (((y + row) * d.stride + x) * d.bytes_per_pixel)
        (((y + row - sy) * width + (x - sx)) * d.bytes_per_pixel) (w * d.bytes_per_pixel);
}

blit_rows-step :
    (d : FrameBufferDisplay) (x y w h : ℕ) (source : Bytes) (width sx sy row rows : ℕ)
    → IsBlit d.stride d.bytes_per_pixel d.framebuffer.len x y w h source width sx sy
    → row < h
    → blit_rows d (at x y w h) source width (pos sx) (pos sy) row (suc rows)
      ≡ blit_rows
          (after_row d x y w source width sx sy row)
          (at x y w h)
          source
          width
          (pos sx)
          (pos sy)
          (row + 1)
          rows
unfolding blit_rows copy_row
blit_rows-step d x y w h source width sx sy row rows b hr =
    let y_lt = b.y_lt in
    let x_lt = b.x_lt in
    let top_le = b.top_le in
    let e1 = add_i32-pos y row (omega arith) in
    let e2 = sub_i32-pos (y + row) sy (omega arith) (omega arith) in
    let e3 = sub_i32-pos x sx b.left_le (omega arith) in rw (e1, e2, e3) refl

no_row :
    (d : FrameBufferDisplay) (s : ℕ → ℕ → ℕ → ℕ) (x w a : ℕ)
    → Painted d d (λ px py. in_span a 0 py && in_span x w px) s
no_row d s x w a = record {
  stride_eq = refl;
  bpp_eq = refl;
  len_eq = refl;
  pixel = λ px py c hx hc.
      sym (ap (λ (b : Bool). if b then s px py c else byte_at d px py c) (nothing px py));
}
  where
    nothing : (px py : ℕ) → (in_span a 0 py && in_span x w px) ≡ false
    nothing px py = ground arith

blit_rows-Painted :
    (d : FrameBufferDisplay) (x y w h : ℕ) (source : Bytes) (width sx sy row rows : ℕ)
    → IsBlit d.stride d.bytes_per_pixel d.framebuffer.len x y w h source width sx sy
    → row + rows ≤ h
    → Painted d
        (blit_rows d (at x y w h) source width (pos sx) (pos sy) row rows)
        (λ px py. in_span (y + row) rows py && in_span x w px)
        (picture_of source width d.bytes_per_pixel sx sy)
unfolding blit_rows
blit_rows-Painted d x y w h source width sx sy row zero b hr = no_row d _ x w (y + row)
blit_rows-Painted d x y w h source width sx sy row (suc rows) b hr =
    let d1 = after_row d x y w source width sx sy row in
    let s = picture_of source width d.bytes_per_pixel sx sy in
    let first = row-Painted d x y w h source width sx sy row b (omega arith) in
    let kept : IsBlit d.stride d.bytes_per_pixel d1.framebuffer.len x y w h source width sx sy =
      rw (first.len_eq) b in
    let rest = blit_rows-Painted d1 x y w h source width sx sy (row + 1) rows kept (omega arith) in
    rw (blit_rows-step d x y w h source width sx sy row rows b (omega arith))
      (Painted-test d _ _ _ s (λ px py. ground arith) (Painted-twice d d1 _ _ _ s first rest))

pub blit_partial-Painted :
    (d : FrameBufferDisplay) (x y w h : ℕ) (source : Bytes) (width sx sy : ℕ)
    → IsBlit d.stride d.bytes_per_pixel d.framebuffer.len x y w h source width sx sy
    → Painted d
        (blit_partial d (at x y w h) source width (pos sx) (pos sy))
        (λ px py. in_span y h py && in_span x w px)
        (picture_of source width d.bytes_per_pixel sx sy)
unfolding blit_partial
blit_partial-Painted d x y w h source width sx sy b =
    Painted-test d _ _ _ _ (λ px py. ground arith)
      (blit_rows-Painted d x y w h source width sx sy 0 h b (omega arith))

pub blit_bg-Painted :
    (d : FrameBufferDisplay) (x y w h : ℕ) (source : Bytes) (width : ℕ)
    → IsBlit d.stride d.bytes_per_pixel d.framebuffer.len x y w h source width 0 0
    → Painted d
        (blit_bg d (at x y w h) source width)
        (λ px py. in_span y h py && in_span x w px)
        (picture_of source width d.bytes_per_pixel 0 0)
unfolding blit_bg
blit_bg-Painted d x y w h source width b =
    Painted-test d _ _ _ _ (λ px py. ground arith)
      (blit_rows-Painted d x y w h source width 0 0 0 h b (omega arith))
