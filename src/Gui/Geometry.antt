-- ===== src/Gui/Geometry.antt =====
-- `Rect` of kernel/src/gui/geometry.rs. Coordinates and sizes are i32.
pub mod Cover
pub mod Strips
use kafka_os.Base.{
  ℕ, Bool, true, false, ◌&&◌, Option, none, some, List, [], ◌∷◌, ◌++◌, if◌then◌else◌,
}
use kafka_os.Base.Int.{ℤ, ltb_ℤ, leb_ℤ, max_ℤ, min_ℤ, add_i32, sub_i32}

pub record Rect : Type 0 where
  pub x : ℤ
  pub y : ℤ
  pub width : ℤ
  pub height : ℤ

abbrev pub right : Rect → ℤ
right r = add_i32 r.x r.width

abbrev pub bottom : Rect → ℤ
bottom r = add_i32 r.y r.height

unfoldable pub contains_rect : Rect → Rect → Bool
contains_rect r other =
    leb_ℤ r.x other.x
    && (leb_ℤ r.y other.y && (leb_ℤ (right other) (right r) && leb_ℤ (bottom other) (bottom r)))

-- The span from `x1` to `x2` in one direction, and the two spans of a rectangle.
abbrev pub between : ℤ → ℤ → ℤ → ℤ → Rect
between x1 y1 x2 y2 = record { x = x1; y = y1; width = sub_i32 x2 x1; height = sub_i32 y2 y1 }

unfoldable pub intersection : Rect → Rect → Option Rect
intersection r other =
    let x1 = max_ℤ r.x other.x in
    let y1 = max_ℤ r.y other.y in
    let x2 = min_ℤ (right r) (right other) in
    let y2 = min_ℤ (bottom r) (bottom other) in
    if ltb_ℤ x1 x2 && ltb_ℤ y1 y2 then some (between x1 y1 x2 y2) else none

-- `if test { result.push(strip) }`
abbrev pub pushed_if : Bool → Rect → List Rect → List Rect
pushed_if test strip rest = if test then strip ∷ rest else rest

-- The four strips of `r` around an overlap.
unfoldable pub strips : Rect → Rect → List Rect
strips r overlap =
    pushed_if (ltb_ℤ r.y overlap.y)
      (record { x = r.x; y = r.y; width = r.width; height = sub_i32 overlap.y r.y })
      (pushed_if (ltb_ℤ (bottom overlap) (bottom r))
        (record {
          x = r.x;
          y = bottom overlap;
          width = r.width;
          height = sub_i32 (bottom r) (bottom overlap);
        })
        (pushed_if (ltb_ℤ r.x overlap.x)
          (record {
            x = r.x;
            y = overlap.y;
            width = sub_i32 overlap.x r.x;
            height = overlap.height;
          })
          (pushed_if (ltb_ℤ (right overlap) (right r))
            (record {
              x = right overlap;
              y = overlap.y;
              width = sub_i32 (right r) (right overlap);
              height = overlap.height;
            })
            [])))

unfoldable pub subtract : Rect → Rect → List Rect
unfolding strips
subtract r other = elim (intersection r other) [ none ↦ r ∷ [] | some overlap ↦ strips r overlap ]
