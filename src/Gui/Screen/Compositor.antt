-- ===== src/Gui/Screen/Compositor.antt =====
-- A damaged rectangle as the compositor of kernel/src/gui/graphics.rs leaves it.
use kafka_os.Base.{
  ℕ, ◌+◌, ◌-◌, ◌*◌, ◌≤◌, ◌≡◌, ◌∙◌, ap, Bool, true, false, Option, none, some, List, [], ◌∷◌,
  if◌then◌else◌, arith,
}
use kafka_os.Base.Int.{pos}
use kafka_os.Gui.Screen.{
  FrameBufferDisplay, Surface, Desktop, paint_surface, paint_windows, paint_notepad, blit_bg,
  at_corner,
}
use kafka_os.Gui.Screen.Rows.{byte_at, IsBlit, picture_of, mul_mono}
use kafka_os.Gui.Screen.Rows.Blit.{at, blit_bg-Painted}
use kafka_os.Gui.Screen.Picture.{IsRect, IsPlaced}
use kafka_os.Gui.Screen.Picture.Layers.{in_rect}
use kafka_os.Gui.Screen.Drawn.{
  over, over_windows, over_notepad, IsDisplay, Drawn, Drawn-IsDisplay, Drawn-none, Drawn-twice,
  paint_surface-Drawn,
}

pub data ArePlaced (sw sh bpp : ℕ) : List Surface → Type 0 where
  none_placed : ArePlaced sw sh bpp []
  placed :
      {s : Surface}
      → {windows : List Surface} → IsPlaced sw sh bpp s
      → ArePlaced sw sh bpp windows
      → ArePlaced sw sh bpp (s ∷ windows)

-- The editor is open on the screen and not minimized, or closed.
pub data IsShown (sw sh bpp : ℕ) : Option Surface → Type 0 where
  closed : IsShown sw sh bpp none
  opened :
      {s : Surface} → IsPlaced sw sh bpp s → s.is_minimized ≡ false → IsShown sw sh bpp (some s)

-- A desktop of a screen: the taskbar is its upper edge, and the background has its size.
pub record IsDesktop (sw sh bpp : ℕ) (k : Desktop) : Type 0 where
  pub windows : ArePlaced sw sh bpp k.windows
  pub notepad : IsShown sw sh bpp k.notepad
  pub taskbar : IsPlaced sw sh bpp (at_corner k.taskbar)
  pub taskbar_width : k.taskbar.width ≡ sw
  pub taskbar_height : k.taskbar.height ≡ 30
  pub screen_width : k.screen_width ≡ pos sw
  pub bg_width : k.bg_width ≡ sw
  pub bg_room : sh * sw * bpp ≤ k.bg_buffer.len

one_window-Drawn :
    (sw sh bpp : ℕ) (d : FrameBufferDisplay) (s : Surface) (is_minimized : Bool) (x y w h : ℕ)
    → IsDisplay sw sh bpp d
    → IsPlaced sw sh bpp s
    → IsRect sw sh x y w h
    → Drawn bpp d
        (if is_minimized then d else paint_surface d (at x y w h) s)
        x
        y
        w
        h
        (λ px py c v. if is_minimized then v else over s bpp px py c v)
one_window-Drawn sw sh bpp d s true x y w h k p r = Drawn-none bpp d x y w h
one_window-Drawn sw sh bpp d s false x y w h k p r = paint_surface-Drawn sw sh bpp d s x y w h k p r

paint_windows-Drawn :
    (sw sh bpp : ℕ) (d : FrameBufferDisplay) (windows : List Surface) (x y w h : ℕ)
    → IsDisplay sw sh bpp d
    → ArePlaced sw sh bpp windows
    → IsRect sw sh x y w h
    → Drawn bpp d (paint_windows d (at x y w h) windows) x y w h (over_windows windows bpp)
unfolding paint_windows
paint_windows-Drawn sw sh bpp d [] x y w h k p r = Drawn-none bpp d x y w h
paint_windows-Drawn sw sh bpp d (s ∷ windows) x y w h k (placed p ps) r =
    let first = one_window-Drawn sw sh bpp d s s.is_minimized x y w h k p r in
    Drawn-twice bpp d _ _ x y w h _ _ first (
      paint_windows-Drawn sw sh bpp (if s.is_minimized then d else paint_surface d (at x y w h) s)
        windows x y w h (Drawn-IsDisplay sw sh bpp _ _ _ _ _ _ _ first k) ps r)

paint_notepad-Drawn :
    (sw sh bpp : ℕ) (d : FrameBufferDisplay) (notepad : Option Surface) (x y w h : ℕ)
    → IsDisplay sw sh bpp d
    → IsShown sw sh bpp notepad
    → IsRect sw sh x y w h
    → Drawn bpp d (paint_notepad d (at x y w h) notepad) x y w h (over_notepad notepad bpp)
paint_notepad-Drawn sw sh bpp d none x y w h k p r = Drawn-none bpp d x y w h
paint_notepad-Drawn sw sh bpp d (some s) x y w h k (opened p e) r =
    paint_surface-Drawn sw sh bpp d s x y w h k p r

-- The layers over what is there.
abbrev pub layers : Desktop → ℕ → ℕ → ℕ → ℕ → ℕ → ℕ
layers k bpp px py c v =
    over (at_corner k.taskbar) bpp px py c
      (over_notepad k.notepad bpp px py c (over_windows k.windows bpp px py c v))

pub paint_over-Drawn :
    (sw sh bpp : ℕ) (d : FrameBufferDisplay) (k : Desktop) (x y w h : ℕ)
    → IsDisplay sw sh bpp d
    → IsDesktop sw sh bpp k
    → IsRect sw sh x y w h
    → Drawn bpp d
        (paint_surface
          (paint_notepad (paint_windows d (at x y w h) k.windows) (at x y w h) k.notepad)
          (at x y w h)
          (at_corner k.taskbar))
        x
        y
        w
        h
        (layers k bpp)
paint_over-Drawn sw sh bpp d k x y w h dk kk r =
    let one = paint_windows-Drawn sw sh bpp d k.windows x y w h dk kk.windows r in
    let dk1 = Drawn-IsDisplay sw sh bpp _ _ _ _ _ _ _ one dk in
    let two = paint_notepad-Drawn sw sh bpp _ k.notepad x y w h dk1 kk.notepad r in
    let dk2 = Drawn-IsDisplay sw sh bpp _ _ _ _ _ _ _ two dk1 in
    let three = paint_surface-Drawn sw sh bpp _ (at_corner k.taskbar) x y w h dk2 kk.taskbar r in
    Drawn-twice bpp d _ _ x y w h _ _ (Drawn-twice bpp d _ _ x y w h _ _ one two) three

pub blit_bg-Drawn :
    (sw sh bpp : ℕ) (d : FrameBufferDisplay) (k : Desktop) (x y w h : ℕ)
    → IsDisplay sw sh bpp d
    → IsDesktop sw sh bpp k
    → IsRect sw sh x y w h
    → Drawn bpp d
        (blit_bg d (at x y w h) k.bg_buffer k.bg_width)
        x
        y
        w
        h
        (λ px py c v. picture_of k.bg_buffer k.bg_width bpp 0 0 px py c)
blit_bg-Drawn sw sh bpp d k x y w h dk kk r =
    let q =
      blit_bg-Painted d x y w h k.bg_buffer k.bg_width (bg-IsBlit sw sh bpp d k x y w h dk kk r) in
    record {
      stride_eq = q.stride_eq;
      bpp_eq = q.bpp_eq;
      len_eq = q.len_eq;
      pixel = λ px py c hx hc.
          q.pixel px py c hx (rw (dk.bpp_eq) hc)
          ∙ ap
              (λ (n : ℕ).
                if in_rect x y w h px py
                then picture_of k.bg_buffer k.bg_width n 0 0 px py c
                else byte_at d px py c)
              dk.bpp_eq;
    }
  where
    bg-IsBlit :
        (sw sh bpp : ℕ) (d : FrameBufferDisplay) (k : Desktop) (x y w h : ℕ)
        → IsDisplay sw sh bpp d
        → IsDesktop sw sh bpp k
        → IsRect sw sh x y w h
        → IsBlit d.stride d.bytes_per_pixel d.framebuffer.len x y w h k.bg_buffer k.bg_width 0 0
    bg-IsBlit sw sh bpp d k x y w h dk kk r =
        let right = r.right_le in
        let bottom = r.bottom_le in
        let wide = dk.screen.stride_ge in
        let width_lt = dk.screen.width_lt in
        let height_lt = dk.screen.height_lt in
        let bg = kk.bg_width in
        let screen_rows =
          mul_mono ((y + h) * d.stride) (sh * d.stride) d.bytes_per_pixel
            (mul_mono (y + h) sh d.stride bottom) in
        let bg_rows = mul_mono ((y + h) * sw) (sh * sw) bpp (mul_mono (y + h) sh sw bottom) in
        let screen_room = dk.screen.room in
        let bare : y + h - 0 ≡ y + h = omega arith in
        let buffer_room = kk.bg_room in
        record {
          right_le = omega arith;
          left_le = omega arith;
          top_le = omega arith;
          right_in = omega arith;
          screen_room = omega arith;
          source_room = rw (bare, kk.bg_width, dk.bpp_eq) (omega arith);
          x_lt = omega arith;
          y_lt = omega arith;
        }
