-- ===== src/Gui/Screen/Picture/Layers.antt =====
-- One layer over another on the screen of kernel/src/gui/graphics.rs.

use kafka_os.Base.{
  ℕ, ◌+◌, ◌-◌, ◌*◌, ◌^◌, ◌<◌, ◌≡◌, ◌∙◌, inl, inr, refl, sym, ap, max, min, Bool, true, false, ◌&&◌,
  ltb, if◌then◌else◌, arith, Bool-cases,
}
use kafka_os.Gui.Window.Moves.{signed32-pos}
use kafka_os.Gui.Screen.{FrameBufferDisplay, Surface, surface_rect, paint_surface}
use kafka_os.Gui.Screen.Rows.{byte_at, Painted, IsBlit, in_span, picture_of, mul_mono}
use kafka_os.Gui.Screen.Rows.Blit.{at, Painted-test, blit_partial-Painted}
use kafka_os.Gui.Screen.Picture.{IsRect, IsScreen, IsPlaced, meets, meet_size, intersection-at}

abbrev pub in_rect : ℕ → ℕ → ℕ → ℕ → ℕ → ℕ → Bool
in_rect x y w h px py = in_span y h py && in_span x w px

pub surface_rect-at :
    (screen_width screen_height bpp : ℕ) (s : Surface)
    (p : IsPlaced screen_width screen_height bpp s)
    → screen_width < 2 ^ 31
    → screen_height < 2 ^ 31
    → surface_rect s ≡ at p.left p.top s.width s.height
surface_rect-at sw sh bpp s p hw hh = λ i. record {
  x = p.x_eq i;
  y = p.y_eq i;
  width = signed32-pos s.width (omega (arith, p.rect.right_le)) i;
  height = signed32-pos s.height (omega (arith, p.rect.bottom_le)) i;
}

overlap-IsBlit :
    (sw sh : ℕ) (d : FrameBufferDisplay) (s : Surface) (p : IsPlaced sw sh d.bytes_per_pixel s)
    (x y w h : ℕ)
    → IsScreen sw sh d
    → IsRect sw sh x y w h
    → (meets x w p.left s.width && meets y h p.top s.height) ≡ true
    → IsBlit d.stride d.bytes_per_pixel d.framebuffer.len
        (max x p.left)
        (max y p.top)
        (meet_size x w p.left s.width)
        (meet_size y h p.top s.height)
        s.buffer
        s.width
        p.left
        p.top
overlap-IsBlit sw sh d s p x y w h k r e =
    let across : max x p.left < min (x + w) (p.left + s.width) = ground arith in
    let down : max y p.top < min (y + h) (p.top + s.height) = ground arith in
    let right = r.right_le in
    let bottom = r.bottom_le in
    let s_right = p.rect.right_le in
    let s_bottom = p.rect.bottom_le in
    let wide = k.stride_ge in
    let width_lt = k.width_lt in
    let height_lt = k.height_lt in
    let last = max y p.top + meet_size y h p.top s.height in
    let screen_rows =
      mul_mono (last * d.stride) (sh * d.stride) d.bytes_per_pixel
        (mul_mono last sh d.stride (omega arith)) in
    let surface_rows =
      mul_mono ((last - p.top) * s.width) (s.height * s.width) d.bytes_per_pixel
        (mul_mono (last - p.top) s.height s.width (omega arith)) in
    let screen_room = k.room in
    let buffer_room = p.buffer_room in
    record {
      right_le = omega arith;
      left_le = omega arith;
      top_le = omega arith;
      right_in = omega arith;
      screen_room = omega arith;
      source_room = omega arith;
      x_lt = omega arith;
      y_lt = omega arith;
    }

unpainted :
    (d : FrameBufferDisplay) (t : ℕ → ℕ → Bool) (s : ℕ → ℕ → ℕ → ℕ)
    → ((px py : ℕ) → t px py ≡ false)
    → Painted d d t s
unpainted d t s nothing = record {
  stride_eq = refl;
  bpp_eq = refl;
  len_eq = refl;
  pixel = λ px py c hx hc.
      sym (ap (λ (b : Bool). if b then s px py c else byte_at d px py c) (nothing px py));
}

span_meet :
    (a n b m p : ℕ)
    → ltb (max a b) (min (a + n) (b + m)) ≡ true
    → in_span (max a b) (meet_size a n b m) p ≡ (in_span a n p && in_span b m p)
span_meet a n b m p h = ground arith

span_apart : (a n b m p : ℕ) → meets a n b m ≡ false → (in_span a n p && in_span b m p) ≡ false
span_apart a n b m p h = ground arith

both_left : (u v : Bool) → (u && v) ≡ true → u ≡ true
both_left u v h = ground arith

both_right : (u v : Bool) → (u && v) ≡ true → v ≡ true
both_right u v h = ground arith

swap_middle : (s t u v : Bool) → ((s && t) && (u && v)) ≡ ((s && u) && (t && v))
swap_middle s t u v = ground arith

rect_meet :
    (x y w h u v m n px py : ℕ)
    → (meets x w u m && meets y h v n) ≡ true
    → in_rect (max x u) (max y v) (meet_size x w u m) (meet_size y h v n) px py
      ≡ (in_rect x y w h px py && in_rect u v m n px py)
rect_meet x y w h u v m n px py e =
    rw
      (
        span_meet x w u m px (both_left (meets x w u m) (meets y h v n) e),
        span_meet y h v n py (both_right (meets x w u m) (meets y h v n) e),
      )
      (swap_middle (in_span y h py) (in_span v n py) (in_span x w px) (in_span u m px))

nothing_here :
    (a b s t u v : Bool)
    → (a && b) ≡ false
    → (a ≡ false → (u && v) ≡ false)
    → (b ≡ false → (s && t) ≡ false)
    → ((s && u) && (t && v)) ≡ false
nothing_here false b s t u v e f g = swap_middle s u t v ∙ rw (f refl) (false_right (s && t))
  where
    false_right : (c : Bool) → (c && false) ≡ false
    false_right c = ground arith
nothing_here true b s t u v e f g = swap_middle s u t v ∙ rw (g e) refl

rect_apart :
    (x y w h u v m n px py : ℕ)
    → (meets x w u m && meets y h v n) ≡ false
    → (in_rect x y w h px py && in_rect u v m n px py) ≡ false
rect_apart x y w h u v m n px py e =
    nothing_here (meets x w u m) (meets y h v n) (in_span y h py) (in_span v n py) (in_span x w px)
      (in_span u m px) e (λ a. span_apart x w u m px a) (λ a. span_apart y h v n py a)

pub paint_surface-Painted :
    (sw sh : ℕ) (d : FrameBufferDisplay) (s : Surface) (p : IsPlaced sw sh d.bytes_per_pixel s)
    (x y w h : ℕ)
    → IsScreen sw sh d
    → IsRect sw sh x y w h
    → Painted d
        (paint_surface d (at x y w h) s)
        (λ px py. in_rect x y w h px py && in_rect p.left p.top s.width s.height px py)
        (picture_of s.buffer s.width d.bytes_per_pixel p.left p.top)
unfolding paint_surface
paint_surface-Painted sw sh d s p x y w h k r =
    let right = r.right_le in
    let bottom = r.bottom_le in
    let s_right = p.rect.right_le in
    let s_bottom = p.rect.bottom_le in
    let width_lt = k.width_lt in
    let height_lt = k.height_lt in
    let met =
      intersection-at x y w h p.left p.top s.width s.height (omega arith) (omega arith)
        (omega arith) (omega arith) in
    let same = surface_rect-at sw sh d.bytes_per_pixel s p width_lt height_lt in
    rw (same, met)
      (elim (Bool-cases (meets x w p.left s.width && meets y h p.top s.height)) [
        | inl e ↦
            rw (e, p.x_eq, p.y_eq)
              (Painted-test d _ _ _ _
                (λ px py. rect_meet x y w h p.left p.top s.width s.height px py e)
                (blit_partial-Painted d (max x p.left) (max y p.top) (meet_size x w p.left s.width)
                  (meet_size y h p.top s.height) s.buffer s.width p.left p.top
                  (overlap-IsBlit sw sh d s p x y w h k r e)))
        | inr e ↦
            rw e
              (unpainted d _ _ (λ px py. rect_apart x y w h p.left p.top s.width s.height px py e))
      ])
