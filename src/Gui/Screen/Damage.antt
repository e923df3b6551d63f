-- ===== src/Gui/Screen/Damage.antt =====
-- A round of the compositor of kernel/src/gui/graphics.rs: every pixel of the damaged rectangles shows the layers.
use kafka_os.Base.{
  ℕ, ◌^◌, ◌<◌, ◌≡◌, ◌∙◌, refl, sym, ap, Bool, true, false, ◌||◌, Option, none, some, List, [], ◌∷◌,
  if◌then◌else◌, arith, Bool-cases, inl, inr,
}
use kafka_os.Base.Int.{ℤ, pos}
use kafka_os.Gui.Geometry.{Rect, contains_rect}
use kafka_os.Gui.Screen.{
  FrameBufferDisplay, Surface, Desktop, as_usize, paint_layers, paint_damage, under_windows,
  task_rect, paint_with, at_corner,
}
use kafka_os.Gui.Screen.Rows.{byte_at}
use kafka_os.Gui.Screen.Rows.Blit.{at}
use kafka_os.Gui.Screen.Picture.{IsRect}
use kafka_os.Gui.Screen.Picture.Layers.{in_rect}
use kafka_os.Gui.Screen.Drawn.{
  over, over_windows, over_notepad, shown, IsDisplay, Drawn, Drawn-IsDisplay, Drawn-twice,
  Drawn-inside,
}
use kafka_os.Gui.Screen.Compositor.{
  IsShown, closed, opened, IsDesktop, layers, paint_over-Drawn, blit_bg-Drawn,
}
use kafka_os.Gui.Screen.{paint_all}
use kafka_os.Gui.Screen.Covered.{
  contains_rect-in_rect, Hides, covers-Hides, surface_rect-Hides, covered_by-Hides,
}

paint_layers-Drawn :
    (sw sh bpp : ℕ) (d : FrameBufferDisplay) (k : Desktop) (fully_covered : Bool) (x y w h : ℕ)
    → IsDisplay sw sh bpp d
    → IsDesktop sw sh bpp k
    → IsRect sw sh x y w h
    → (fully_covered ≡ true
        → (px py c : ℕ) → in_rect x y w h px py ≡ true
        → Hides (layers k bpp px py c))
    → Drawn bpp d
        (paint_layers d k (at x y w h) fully_covered)
        x
        y
        w
        h
        (λ px py c v. shown k bpp px py c)
unfolding paint_layers
paint_layers-Drawn sw sh bpp d k true x y w h dk kk r hides =
    Drawn-inside bpp d _ x y w h _ _ (λ px py c v e. hides refl px py c e v _)
      (paint_over-Drawn sw sh bpp d k x y w h dk kk r)
paint_layers-Drawn sw sh bpp d k false x y w h dk kk r hides =
    let first = blit_bg-Drawn sw sh bpp d k x y w h dk kk r in
    Drawn-twice bpp d _ _ x y w h _ _ first (
      paint_over-Drawn sw sh bpp _ k x y w h (Drawn-IsDisplay sw sh bpp _ _ _ _ _ _ _ first dk) kk
        r)

taskbar-Hides :
    (sw sh bpp : ℕ) (k : Desktop) (x y w h px py c : ℕ)
    → sw < 2 ^ 31
    → sh < 2 ^ 31
    → IsDesktop sw sh bpp k
    → IsRect sw sh x y w h
    → contains_rect (task_rect k) (at x y w h) ≡ true
    → in_rect x y w h px py ≡ true
    → Hides (over (at_corner k.taskbar) bpp px py c)
taskbar-Hides sw sh bpp k x y w h px py c hw hh kk r e inside =
    let right = r.right_le in
    let bottom = r.bottom_le in
    let upper : contains_rect (at 0 0 sw 30) (at x y w h) ≡ true =
      ap
        (λ (n : ℤ).
          contains_rect (record { x = pos 0; y = pos 0; width = n; height = pos 30 }) (at x y w h))
        (sym (kk.screen_width))
      ∙ e in
    let covered =
      contains_rect-in_rect 0 0 sw 30 x y w h px py (omega arith) (omega arith) (omega arith)
        (omega arith) upper inside in
    covers-Hides (at_corner k.taskbar) bpp px py c
      ((λ i. in_rect 0 0 (kk.taskbar_width i) (kk.taskbar_height i) px py) ∙ covered)

under_windows-Hides :
    (sw sh bpp : ℕ) (k : Desktop) (x y w h px py c : ℕ)
    → sw < 2 ^ 31
    → sh < 2 ^ 31
    → IsDesktop sw sh bpp k
    → IsRect sw sh x y w h
    → under_windows k (at x y w h) ≡ true
    → in_rect x y w h px py ≡ true
    → Hides (layers k bpp px py c)
under_windows-Hides sw sh bpp k x y w h px py c hw hh kk r e inside =
    elim (Bool-cases (contains_rect (task_rect k) (at x y w h))) [
      | inl task ↦ λ v v'. taskbar-Hides sw sh bpp k x y w h px py c hw hh kk r task inside _ _
      | inr task ↦ λ v v'.
          ap
            (λ (b : ℕ).
              over (at_corner k.taskbar) bpp px py c (over_notepad k.notepad bpp px py c b))
            (covered_by-Hides sw sh bpp k.windows x y w h px py c hw hh kk.windows r (ground arith)
              inside v v')
    ]

not_skipped :
    (bpp : ℕ) (d d' : FrameBufferDisplay) (x y w h : ℕ) (f : ℕ → ℕ → ℕ → ℕ → ℕ) (skipped : Bool)
    → skipped ≡ false
    → Drawn bpp d d' x y w h f
    → Drawn bpp d (if skipped then d else d') x y w h f
not_skipped bpp d d' x y w h f true e p = cc
not_skipped bpp d d' x y w h f false e p = p

paint_with-Drawn :
    (sw sh bpp : ℕ) (d : FrameBufferDisplay) (k : Desktop) (x y w h : ℕ)
    → IsDisplay sw sh bpp d
    → IsDesktop sw sh bpp k
    → IsRect sw sh x y w h
    → (covered : Bool) → under_windows k (at x y w h) ≡ covered
    → (notepad : Option Surface) → k.notepad ≡ notepad
    → IsShown sw sh bpp notepad
    → Drawn bpp d
        (paint_with d k (at x y w h) covered notepad)
        x
        y
        w
        h
        (λ px py c v. shown k bpp px py c)
paint_with-Drawn sw sh bpp d k x y w h dk kk r true e notepad n p =
    paint_layers-Drawn sw sh bpp d k true x y w h dk kk r (λ _ px py c inside.
      under_windows-Hides sw sh bpp k x y w h px py c dk.screen.width_lt dk.screen.height_lt kk r e
        inside)
paint_with-Drawn sw sh bpp d k x y w h dk kk r false e none n closed =
    paint_layers-Drawn sw sh bpp d k false x y w h dk kk r (λ absurd. cc)
paint_with-Drawn sw sh bpp d k x y w h dk kk r false e (some s) n (opened p seen) =
    not_skipped bpp d _ x y w h _ s.is_minimized seen (
      paint_layers-Drawn sw sh bpp d k _ x y w h dk kk r (λ f px py c inside v v'.
        let below = λ (u : ℕ). over_windows k.windows bpp px py c u in
        ap (over (at_corner k.taskbar) bpp px py c) (
          ap (λ (o : Option Surface). over_notepad o bpp px py c (below v)) n
          ∙ surface_rect-Hides sw sh bpp s x y w h px py c dk.screen.width_lt dk.screen.height_lt p
              r f inside (below v) (below v')
          ∙ sym (ap (λ (o : Option Surface). over_notepad o bpp px py c (below v')) n))))

paint_damage-Drawn :
    (sw sh bpp : ℕ) (d : FrameBufferDisplay) (k : Desktop) (x y w h : ℕ)
    → IsDisplay sw sh bpp d
    → IsDesktop sw sh bpp k
    → IsRect sw sh x y w h
    → Drawn bpp d (paint_damage d k (at x y w h)) x y w h (λ px py c v. shown k bpp px py c)
unfolding paint_damage
paint_damage-Drawn sw sh bpp d k x y w h dk kk r =
    paint_with-Drawn sw sh bpp d k x y w h dk kk r (under_windows k (at x y w h)) refl k.notepad
      refl kk.notepad

-- Rectangles of the screen, and the pixels in one of them.
pub data AreRects (sw sh : ℕ) : List Rect → Type 0 where
  no_rects : AreRects sw sh []
  rect_and :
      (x y w h : ℕ)
      → {rects : List Rect} → IsRect sw sh x y w h
      → AreRects sw sh rects
      → AreRects sw sh (at x y w h ∷ rects)

abbrev pub in_rects : List Rect → ℕ → ℕ → Bool
in_rects [] px py = false
in_rects (r ∷ rects) px py =
    in_rect (as_usize r.x) (as_usize r.y) (as_usize r.width) (as_usize r.height) px py
    || in_rects rects px py

if_either :
    (t u : Bool) (a v : ℕ) → (if u then a else if t then a else v) ≡ (if t || u then a else v)
if_either true true a v = refl
if_either true false a v = refl
if_either false true a v = refl
if_either false false a v = refl

-- After a round, a pixel of a damaged rectangle shows the taskbar, or under it the editor, the topmost window that
-- is not minimized, and the background, whichever is the first to cover it, also where the background was left
-- out; every other pixel is as before. All stands within the screen, below 2 ^ 31 pixels in each direction, the
-- buffers hold their rows, the taskbar is the upper 30 rows, and the editor is not minimized.
pub paint_all-shown :
    (sw sh bpp : ℕ) (d : FrameBufferDisplay) (k : Desktop) (rects : List Rect) (px py c : ℕ)
    → IsDisplay sw sh bpp d
    → IsDesktop sw sh bpp k
    → AreRects sw sh rects
    → px < d.stride
    → c < bpp
    → byte_at (paint_all d k rects) px py c
      ≡ (if in_rects rects px py then shown k bpp px py c else byte_at d px py c)
unfolding paint_all
paint_all-shown sw sh bpp d k [] px py c dk kk rs hx hc = refl
paint_all-shown sw sh bpp d k (_ ∷ rects) px py c dk kk (rect_and x y w h r rs) hx hc =
    let first = paint_damage-Drawn sw sh bpp d k x y w h dk kk r in
    let rest =
      paint_all-shown sw sh bpp (paint_damage d k (at x y w h)) k rects px py c
        (Drawn-IsDisplay sw sh bpp _ _ _ _ _ _ _ first dk) kk rs (rw (first.stride_eq) hx) hc in
    rest
    ∙ ap (λ (b : ℕ). if in_rects rects px py then shown k bpp px py c else b)
        (first.pixel px py c hx hc)
    ∙ if_either (in_rect x y w h px py) (in_rects rects px py) (shown k bpp px py c)
        (byte_at d px py c)
