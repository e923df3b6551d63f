-- ===== src/Gui/Screen/Covered.antt =====
-- Where the compositor of kernel/src/gui/graphics.rs leaves the background out, no pixel of it would be seen.
use kafka_os.Base.{
  ℕ, ◌+◌, ◌^◌, ◌<◌, ◌≡◌, ◌∙◌, refl, sym, ap, Bool, true, false, ◌&&◌, not, List, [], ◌∷◌, leb,
  if◌then◌else◌, arith, Bool-cases, inl, inr,
}
use kafka_os.Base.Int.{add_i32-pos}
use kafka_os.Gui.Geometry.{Rect, contains_rect}
use kafka_os.Gui.Screen.{Surface, as_usize, surface_rect, covered_by}
use kafka_os.Gui.Screen.Rows.{picture_of}
use kafka_os.Gui.Screen.Rows.Blit.{at}
use kafka_os.Gui.Screen.Picture.{IsRect, IsPlaced}
use kafka_os.Gui.Screen.Picture.Layers.{in_rect, surface_rect-at}
use kafka_os.Gui.Screen.Drawn.{covers, over, over_windows}
use kafka_os.Gui.Screen.Compositor.{ArePlaced, placed}

contains_rect-at :
    (a b m n x y w h : ℕ)
    → a + m < 2 ^ 31
    → b + n < 2 ^ 31
    → x + w < 2 ^ 31
    → y + h < 2 ^ 31
    → contains_rect (at a b m n) (at x y w h) ≡ (
        leb (a + 0) (x + 0)
        && (leb (b + 0) (y + 0) && (leb (x + w + 0) (a + m + 0) && leb (y + h + 0) (b + n + 0))))
unfolding contains_rect
contains_rect-at a b m n x y w h ha hb hx hy =
    rw (add_i32-pos a m ha, add_i32-pos b n hb, add_i32-pos x w hx, add_i32-pos y h hy) refl

within :
    (a b m n x y w h px py : ℕ)
    → (leb (a + 0) (x + 0)
        && (leb (b + 0) (y + 0) && (leb (x + w + 0) (a + m + 0) && leb (y + h + 0) (b + n + 0))))
      ≡ true
    → in_rect x y w h px py ≡ true
    → in_rect a b m n px py ≡ true
within a b m n x y w h px py c e = ground arith

-- A rectangle within another, and a pixel of it.
pub contains_rect-in_rect :
    (a b m n x y w h px py : ℕ)
    → a + m < 2 ^ 31
    → b + n < 2 ^ 31
    → x + w < 2 ^ 31
    → y + h < 2 ^ 31
    → contains_rect (at a b m n) (at x y w h) ≡ true
    → in_rect x y w h px py ≡ true
    → in_rect a b m n px py ≡ true
contains_rect-in_rect a b m n x y w h px py ha hb hx hy c e =
    within a b m n x y w h px py (sym (contains_rect-at a b m n x y w h ha hb hx hy) ∙ c) e

-- A function of what is below that is the same for all.
abbrev pub Hides : (ℕ → ℕ) → Type 0
Hides f = (v v' : ℕ) → f v ≡ f v'

pub covers-Hides :
    (s : Surface) (bpp px py c : ℕ) → covers s px py ≡ true → Hides (over s bpp px py c)
covers-Hides s bpp px py c e v v' =
    let shown_byte = picture_of s.buffer s.width bpp (as_usize s.x) (as_usize s.y) px py c in
    ap (λ (b : Bool). if b then shown_byte else v) e
    ∙ sym (ap (λ (b : Bool). if b then shown_byte else v') e)

pub surface_rect-Hides :
    (sw sh bpp : ℕ) (s : Surface) (x y w h px py c : ℕ)
    → sw < 2 ^ 31
    → sh < 2 ^ 31
    → IsPlaced sw sh bpp s
    → IsRect sw sh x y w h
    → contains_rect (surface_rect s) (at x y w h) ≡ true
    → in_rect x y w h px py ≡ true
    → Hides (over s bpp px py c)
surface_rect-Hides sw sh bpp s x y w h px py c hw hh p r e inside =
    let right = r.right_le in
    let bottom = r.bottom_le in
    let s_right = p.rect.right_le in
    let s_bottom = p.rect.bottom_le in
    let placed_rect : contains_rect (at p.left p.top s.width s.height) (at x y w h) ≡ true =
      ap (λ (rect : Rect). contains_rect rect (at x y w h))
        (sym (surface_rect-at sw sh bpp s p hw hh))
      ∙ e in
    let covered =
      contains_rect-in_rect p.left p.top s.width s.height x y w h px py (omega arith) (omega arith)
        (omega arith) (omega arith) placed_rect inside in
    covers-Hides s bpp px py c
      ((λ i. in_rect (as_usize (p.x_eq i)) (as_usize (p.y_eq i)) s.width s.height px py) ∙ covered)

pub covered_by-Hides :
    (sw sh bpp : ℕ) (windows : List Surface) (x y w h px py c : ℕ)
    → sw < 2 ^ 31
    → sh < 2 ^ 31
    → ArePlaced sw sh bpp windows
    → IsRect sw sh x y w h
    → covered_by windows (at x y w h) ≡ true
    → in_rect x y w h px py ≡ true
    → Hides (over_windows windows bpp px py c)
unfolding covered_by
covered_by-Hides sw sh bpp [] x y w h px py c hw hh p r e inside = cc
covered_by-Hides sw sh bpp (s ∷ windows) x y w h px py c hw hh (placed p ps) r e inside =
    elim (Bool-cases (covered_by windows (at x y w h))) [
      | inl rest ↦
          λ v v'. covered_by-Hides sw sh bpp windows x y w h px py c hw hh ps r rest inside _ _
      | inr rest ↦
          let window : (not s.is_minimized && contains_rect (surface_rect s) (at x y w h)) ≡ true =
            ground arith in
          let seen : s.is_minimized ≡ false = ground arith in
          let hides =
            surface_rect-Hides sw sh bpp s x y w h px py c hw hh p r (ground arith) inside in
          λ v v'. ap (over_windows windows bpp px py c) (
            ap (λ (b : Bool). if b then v else over s bpp px py c v) seen
            ∙ hides v v'
            ∙ sym (ap (λ (b : Bool). if b then v' else over s bpp px py c v') seen))
    ]
