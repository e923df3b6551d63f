-- ===== src/Gui/Screen/Drawn.antt =====
-- What a pixel of the screen shows once the layers of kernel/src/gui/graphics.rs are drawn over it.
use kafka_os.Base.{
  ℕ, ◌<◌, ◌≡◌, ◌∙◌, refl, sym, ap, Bool, true, false, ◌&&◌, Option, none, some, List, [], ◌∷◌,
  if◌then◌else◌,
}
use kafka_os.Gui.Screen.{FrameBufferDisplay, Surface, Desktop, as_usize, paint_surface, at_corner}
use kafka_os.Gui.Screen.Rows.{byte_at, picture_of}
use kafka_os.Gui.Screen.Rows.Blit.{at}
use kafka_os.Gui.Screen.Picture.{IsRect, IsScreen, IsPlaced}
use kafka_os.Gui.Screen.Picture.Layers.{in_rect, paint_surface-Painted}

abbrev pub covers : Surface → ℕ → ℕ → Bool
covers s px py = in_rect (as_usize s.x) (as_usize s.y) s.width s.height px py

-- A byte of a pixel under a surface that stands over it.
abbrev pub over : Surface → ℕ → ℕ → ℕ → ℕ → ℕ → ℕ
over s bpp px py c v =
    if covers s px py
    then picture_of s.buffer s.width bpp (as_usize s.x) (as_usize s.y) px py c
    else v

-- The windows from the bottom to the top. A minimized one is not seen.
abbrev pub over_windows : List Surface → ℕ → ℕ → ℕ → ℕ → ℕ → ℕ
over_windows [] bpp px py c v = v
over_windows (s ∷ windows) bpp px py c v =
    over_windows windows bpp px py c (if s.is_minimized then v else over s bpp px py c v)

abbrev pub over_notepad : Option Surface → ℕ → ℕ → ℕ → ℕ → ℕ → ℕ
over_notepad none bpp px py c v = v
over_notepad (some s) bpp px py c v = over s bpp px py c v

-- The taskbar over the editor over the windows over the background.
abbrev pub shown : Desktop → ℕ → ℕ → ℕ → ℕ → ℕ
shown k bpp px py c = over (at_corner k.taskbar) bpp px py c (
    over_notepad k.notepad bpp px py c
      (over_windows k.windows bpp px py c (picture_of k.bg_buffer k.bg_width bpp 0 0 px py c)))

-- A screen with its size of a pixel.
pub record IsDisplay (sw sh bpp : ℕ) (d : FrameBufferDisplay) : Type 0 where
  pub screen : IsScreen sw sh d
  pub bpp_eq : d.bytes_per_pixel ≡ bpp

-- A display on which a rectangle is what a function makes of the one before.
pub record Drawn (bpp : ℕ) (d d' : FrameBufferDisplay) (x y w h : ℕ) (f : ℕ → ℕ → ℕ → ℕ → ℕ)
    : Type 0 where
  pub stride_eq : d'.stride ≡ d.stride
  pub bpp_eq : d'.bytes_per_pixel ≡ d.bytes_per_pixel
  pub len_eq : d'.framebuffer.len ≡ d.framebuffer.len
  pub pixel :
      (px py c : ℕ)
      → px < d.stride
      → c < bpp
      → byte_at d' px py c
        ≡ (if in_rect x y w h px py then f px py c (byte_at d px py c) else byte_at d px py c)

pub Drawn-IsDisplay :
    (sw sh bpp : ℕ) (d d' : FrameBufferDisplay) (x y w h : ℕ) (f : ℕ → ℕ → ℕ → ℕ → ℕ)
    → Drawn bpp d d' x y w h f
    → IsDisplay sw sh bpp d
    → IsDisplay sw sh bpp d'
Drawn-IsDisplay sw sh bpp d d' x y w h f q k = record {
  screen = record {
    width_lt = k.screen.width_lt;
    height_lt = k.screen.height_lt;
    stride_ge = rw (q.stride_eq) (k.screen.stride_ge);
    room = rw (q.stride_eq, q.bpp_eq, q.len_eq) (k.screen.room);
  };
  bpp_eq = q.bpp_eq ∙ k.bpp_eq;
}

if_twice :
    (t : Bool) (f g : ℕ → ℕ) (v : ℕ)
    → (if t then g (if t then f v else v) else (if t then f v else v)) ≡ (if t then g (f v) else v)
if_twice true f g v = refl
if_twice false f g v = refl

if_none : (t : Bool) (v : ℕ) → v ≡ (if t then v else v)
if_none true v = refl
if_none false v = refl

if_both :
    (t u : Bool) (a v : ℕ) → (if t && u then a else v) ≡ (if t then (if u then a else v) else v)
if_both true u a v = refl
if_both false u a v = refl

if_inside :
    (t : Bool) (a b v : ℕ) → (t ≡ true → a ≡ b) → (if t then a else v) ≡ (if t then b else v)
if_inside true a b v h = h refl
if_inside false a b v h = refl

pub Drawn-none :
    (bpp : ℕ) (d : FrameBufferDisplay) (x y w h : ℕ) → Drawn bpp d d x y w h (λ px py c v. v)
Drawn-none bpp d x y w h = record {
  stride_eq = refl;
  bpp_eq = refl;
  len_eq = refl;
  pixel = λ px py c hx hc. if_none (in_rect x y w h px py) (byte_at d px py c);
}

pub Drawn-twice :
    (bpp : ℕ) (d d1 d2 : FrameBufferDisplay) (x y w h : ℕ) (f g : ℕ → ℕ → ℕ → ℕ → ℕ)
    → Drawn bpp d d1 x y w h f
    → Drawn bpp d1 d2 x y w h g
    → Drawn bpp d d2 x y w h (λ px py c v. g px py c (f px py c v))
Drawn-twice bpp d d1 d2 x y w h f g p q = record {
  stride_eq = q.stride_eq ∙ p.stride_eq;
  bpp_eq = q.bpp_eq ∙ p.bpp_eq;
  len_eq = q.len_eq ∙ p.len_eq;
  pixel = λ px py c hx hc.
      q.pixel px py c (rw (p.stride_eq) hx) hc
      ∙ ap (λ (b : ℕ). if in_rect x y w h px py then g px py c b else b) (p.pixel px py c hx hc)
      ∙ if_twice (in_rect x y w h px py) (f px py c) (g px py c) (byte_at d px py c);
}

pub Drawn-inside :
    (bpp : ℕ) (d d' : FrameBufferDisplay) (x y w h : ℕ) (f g : ℕ → ℕ → ℕ → ℕ → ℕ)
    → ((px py c v : ℕ) → in_rect x y w h px py ≡ true → f px py c v ≡ g px py c v)
    → Drawn bpp d d' x y w h f
    → Drawn bpp d d' x y w h g
Drawn-inside bpp d d' x y w h f g same p = record {
  stride_eq = p.stride_eq;
  bpp_eq = p.bpp_eq;
  len_eq = p.len_eq;
  pixel = λ px py c hx hc.
      p.pixel px py c hx hc
      ∙ if_inside (in_rect x y w h px py) _ _ _ (λ e. same px py c (byte_at d px py c) e);
}

over_at :
    (sw sh bpp : ℕ) (s : Surface) (p : IsPlaced sw sh bpp s) (px py c v : ℕ)
    → (if in_rect p.left p.top s.width s.height px py
        then picture_of s.buffer s.width bpp p.left p.top px py c
        else v)
      ≡ over s bpp px py c v
over_at sw sh bpp s p px py c v = sym (λ i.
    if in_rect (as_usize (p.x_eq i)) (as_usize (p.y_eq i)) s.width s.height px py
    then picture_of s.buffer s.width bpp (as_usize (p.x_eq i)) (as_usize (p.y_eq i)) px py c
    else v)

pub paint_surface-Drawn :
    (sw sh bpp : ℕ) (d : FrameBufferDisplay) (s : Surface) (x y w h : ℕ)
    → IsDisplay sw sh bpp d
    → IsPlaced sw sh bpp s
    → IsRect sw sh x y w h
    → Drawn bpp d (paint_surface d (at x y w h) s) x y w h (over s bpp)
paint_surface-Drawn sw sh bpp d s x y w h k p r =
    let p' : IsPlaced sw sh d.bytes_per_pixel s = rw (k.bpp_eq) p in
    let q = paint_surface-Painted sw sh d s p' x y w h k.screen r in
    record {
      stride_eq = q.stride_eq;
      bpp_eq = q.bpp_eq;
      len_eq = q.len_eq;
      pixel = λ px py c hx hc.
          q.pixel px py c hx (rw (k.bpp_eq) hc)
          ∙ if_both (in_rect x y w h px py) _ _ _
          ∙ ap (λ (b : ℕ). if in_rect x y w h px py then b else byte_at d px py c)
              (over_at sw sh d.bytes_per_pixel s p' px py c (byte_at d px py c)
                ∙ ap (λ (n : ℕ). over s n px py c (byte_at d px py c)) k.bpp_eq);
    }
