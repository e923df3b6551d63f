-- ===== src/Gui/Screen/Picture.antt =====
-- What the compositor of kernel/src/gui/graphics.rs shows in a damaged rectangle: the layers, one over another.
pub mod Layers
use kafka_os.Base.{
  ℕ, zero, suc, ◌+◌, ◌-◌, ◌*◌, ◌^◌, ◌≤◌, ◌<◌, ◌≡◌, ◌∙◌, ◌⊎◌, inl, inr, refl, sym, ap, max, min,
  Bool, true, false, ◌&&◌, ◌||◌, not, Option, none, some, List, [], ◌∷◌, ltb, leb, if◌then◌else◌,
  arith, Bool-cases,
}
use kafka_os.Base.Int.{
  ℤ, pos, max_ℤ, min_ℤ, add_i32, sub_i32, signed32, add_i32-pos, sub_i32-pos, leb_ℤ, ltb_ℤ,
}
use kafka_os.Gui.Geometry.{Rect, intersection, contains_rect}
use kafka_os.Gui.Window.Moves.{signed32-pos}
use kafka_os.Gui.Screen.{
  Bytes, FrameBufferDisplay, Surface, surface_rect, paint_surface, blit_partial, blit_overlap,
}
use kafka_os.Gui.Screen.Rows.{
  byte_at, place, Painted, IsBlit, in_span, picture_of, mul_mono, mul_step,
}
use kafka_os.Gui.Screen.Rows.Blit.{at, Painted-test, blit_partial-Painted}

max_pos : (a b : ℕ) → max_ℤ (pos a) (pos b) ≡ pos (max a b)
unfolding max_ℤ
max_pos a b = ground arith

min_pos : (a b : ℕ) → min_ℤ (pos a) (pos b) ≡ pos (min a b)
unfolding min_ℤ
min_pos a b = ground arith

-- A rectangle of the screen.
pub record IsRect (screen_width screen_height : ℕ) (x y w h : ℕ) : Type 0 where
  pub right_le : x + w ≤ screen_width
  pub bottom_le : y + h ≤ screen_height

pub record IsScreen (screen_width screen_height : ℕ) (d : FrameBufferDisplay) : Type 0 where
  pub width_lt : screen_width < 2 ^ 31
  pub height_lt : screen_height < 2 ^ 31
  pub stride_ge : screen_width ≤ d.stride
  pub room : screen_height * d.stride * d.bytes_per_pixel ≤ d.framebuffer.len

-- A surface that stands on the screen, with a buffer for its pixels.
pub record IsPlaced (screen_width screen_height bpp : ℕ) (s : Surface) : Type 0 where
  pub left : ℕ
  pub top : ℕ
  pub x_eq : s.x ≡ pos left
  pub y_eq : s.y ≡ pos top
  pub rect : IsRect screen_width screen_height left top s.width s.height
  pub buffer_room : s.height * s.width * bpp ≤ s.buffer.len

-- Where two spans meet.
abbrev meet_from : ℕ → ℕ → ℕ
meet_from a b = max a b

abbrev meet_size : ℕ → ℕ → ℕ → ℕ → ℕ
meet_size a n b m = min (a + n) (b + m) - max a b

abbrev meets : ℕ → ℕ → ℕ → ℕ → Bool
meets a n b m = ltb (max a b) (min (a + n) (b + m))

intersection-at :
    (x y w h u v m n : ℕ)
    → x + w < 2 ^ 31
    → y + h < 2 ^ 31
    → u + m < 2 ^ 31
    → v + n < 2 ^ 31
    → intersection (at x y w h) (at u v m n) ≡ (
        if meets x w u m && meets y h v n
        then some (at (max x u) (max y v) (meet_size x w u m) (meet_size y h v n))
        else none)
unfolding intersection
intersection-at x y w h u v m n hx hy hu hv =
    rw
      (
        max_pos x u,
        max_pos y v,
        add_i32-pos x w hx,
        add_i32-pos y h hy,
        add_i32-pos u m hu,
        add_i32-pos v n hv,
        min_pos (x + w) (u + m),
        min_pos (y + h) (v + n),
      )
      (elim (Bool-cases (meets x w u m && meets y h v n)) [
        | inl e ↦
            let ex : ltb (max x u + 0) (min (x + w) (u + m) + 0) ≡ true = ground arith in
            let ey : ltb (max y v + 0) (min (y + h) (v + n) + 0) ≡ true = ground arith in
            rw
              (
                ex,
                ey,
                e,
                sub_i32-pos (min (x + w) (u + m)) (max x u) (ground arith) (ground arith),
                sub_i32-pos (min (y + h) (v + n)) (max y v) (ground arith) (ground arith),
              )
              refl
        | inr e ↦
            let test : (ltb (max x u + 0) (min (x + w) (u + m) + 0)
                  && ltb (max y v + 0) (min (y + h) (v + n) + 0))
                ≡ false =
              ground arith in
            rw (test, e) refl
      ])
