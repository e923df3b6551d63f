-- ===== src/Gui/Geometry/Cover.antt =====
-- Which points the rectangles of kernel/src/gui/geometry.rs cover.
use kafka_os.Base.{ℕ, ◌+◌, ◌≡◌, ◌∙◌, refl, ap, Bool, ◌&&◌, List, [], ◌∷◌, if◌then◌else◌, arith}
use kafka_os.Base.Int.{
  ℤ, pos, ltb_ℤ, leb_ℤ, ◌+ℤ◌, ◌-ℤ◌, ◌≤ℤ◌, max_ℤ, min_ℤ, sub_i32, sub_i32_lem, Fits32, int_laws,
}
use kafka_os.Gui.Geometry.{Rect, between}

-- A coordinate lies in a span that begins at `a` and ends before `b`.
abbrev pub within : ℤ → ℤ → ℤ → Bool
within a b p = leb_ℤ a p && ltb_ℤ p b

abbrev pub covers : Rect → ℤ → ℤ → Bool
covers r px py = within r.x (r.x +ℤ r.width) px && within r.y (r.y +ℤ r.height) py

-- How many of the rectangles cover a point.
abbrev pub cover_count : List Rect → ℤ → ℤ → ℕ
cover_count [] px py = 0
cover_count (r ∷ rs) px py = (if covers r px py then 1 else 0) + cover_count rs px py

-- A rectangle within the coordinates that i32 counts from zero.
pub record OnScreen (r : Rect) : Type 0 where
  pub x_nonneg : pos 0 ≤ℤ r.x
  pub y_nonneg : pos 0 ≤ℤ r.y
  pub width_nonneg : pos 0 ≤ℤ r.width
  pub height_nonneg : pos 0 ≤ℤ r.height
  pub right_fits : Fits32 (r.x +ℤ r.width)
  pub bottom_fits : Fits32 (r.y +ℤ r.height)

pub Fits32-sub : (a b : ℤ) → pos 0 ≤ℤ a → a ≤ℤ b → Fits32 b → Fits32 (b -ℤ a)
unfolding ◌-ℤ◌
Fits32-sub a b n h f = ground arith

-- The end of a span that was given by its end.
pub end-sub : (a b : ℤ) → pos 0 ≤ℤ a → a ≤ℤ b → Fits32 b → a +ℤ sub_i32 b a ≡ b
end-sub a b n h f = ap (λ (w : ℤ). a +ℤ w) (sub_i32_lem b a (Fits32-sub a b n h f)) ∙ omega int_laws

-- A span is cut by an inner one into the part before it, itself and the part after it.
pub within_parts :
    (a b c d p : ℤ)
    → a ≤ℤ c
    → c ≤ℤ d
    → d ≤ℤ b
    → (if within a b p then 1 else 0)
      ≡ (if within a c p then 1 else 0)
        + ((if within c d p then 1 else 0) + (if within d b p then 1 else 0))
within_parts a b c d p h k l = ground arith

-- What both spans cover is from the later beginning to the earlier end.
pub within_both :
    (a b c d p : ℤ) → (within a b p && within c d p) ≡ within (max_ℤ a c) (min_ℤ b d) p
unfolding max_ℤ min_ℤ
within_both a b c d p = ground arith

-- A span that i32 can count.
abbrev pub IsSpan : ℤ → ℤ → Type 0
IsSpan a b = (pos 0 ≤ℤ a) × (a ≤ℤ b) × Fits32 b

-- A rectangle given by its corners, and what it covers.
pub covers-between :
    (x1 y1 x2 y2 px py : ℤ)
    → IsSpan x1 x2
    → IsSpan y1 y2
    → covers (between x1 y1 x2 y2) px py ≡ (within x1 x2 px && within y1 y2 py)
covers-between x1 y1 x2 y2 px py (nx, hx, fx) (ny, hy, fy) =
    rw (end-sub x1 x2 nx hx fx, end-sub y1 y2 ny hy fy) refl
