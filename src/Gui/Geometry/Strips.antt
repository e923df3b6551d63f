-- ===== src/Gui/Geometry/Strips.antt =====
-- What is left of a rectangle without another: `subtract` of kernel/src/gui/geometry.rs.
use kafka_os.Base.{
  ℕ, ◌+◌, ◌≡◌, ◌∙◌, refl, sym, ap, Bool, true, false, ◌&&◌, not, none, some, List, [],
  if◌then◌else◌, arith, Bool-cases, inl, inr,
}
use kafka_os.Base.Int.{
  ℤ, pos, ltb_ℤ, ◌+ℤ◌, ◌≤ℤ◌, max_ℤ, min_ℤ, add_i32, sub_i32, add_i32_lem, sub_i32_lem, Fits32,
  int_laws, wrap32, wrap32_fits,
}
use kafka_os.Gui.Geometry.{Rect, between, intersection, strips, pushed_if, subtract}
use kafka_os.Gui.Geometry.Cover.{
  within, covers, cover_count, OnScreen, end-sub, Fits32-sub, within_parts, within_both,
  covers-between, IsSpan,
}

abbrev one_if : Bool → ℕ
one_if b = if b then 1 else 0

count-pushed_if :
    (test b : Bool) (strip : Rect) (rest : List Rect) (px py : ℤ)
    → (test ≡ true → covers strip px py ≡ b)
    → (test ≡ false → b ≡ false)
    → cover_count (pushed_if test strip rest) px py ≡ one_if b + cover_count rest px py
count-pushed_if true b strip rest px py h k =
    ap (λ (c : Bool). one_if c + cover_count rest px py) (h refl)
count-pushed_if false b strip rest px py h k = rw (k refl) (omega arith)

within_empty : (a b p : ℤ) → ltb_ℤ a b ≡ false → within a b p ≡ false
within_empty a b p h = ground arith

ltb_ℤ-le : (a b : ℤ) → ltb_ℤ a b ≡ true → a ≤ℤ b
ltb_ℤ-le a b h = ground arith

&&-false : (b c : Bool) → c ≡ false → (b && c) ≡ false
&&-false true c h = h
&&-false false c h = refl

false-&& : (b c : Bool) → b ≡ false → (b && c) ≡ false
false-&& true c h = cc
false-&& false c h = refl

-- A span cut out in both directions leaves four strips that do not meet.
cut_count :
    (rx l ox e ry t oy d : Bool)
    → one_if rx ≡ one_if l + (one_if ox + one_if e)
    → one_if ry ≡ one_if t + (one_if oy + one_if d)
    → one_if (rx && t) + (one_if (rx && d) + (one_if (l && oy) + (one_if (e && oy) + 0)))
      ≡ one_if ((rx && ry) && not (ox && oy))
cut_count rx l ox e ry t oy d h k = ground arith

module _ (lo hi below above px py : ℤ) (rest : List Rect) where
  -- A strip that is there if it is not empty counts in any case.
  count_vertical :
      IsSpan lo hi
      → pos 0 ≤ℤ below
      → Fits32 above
      → cover_count (pushed_if (ltb_ℤ below above) (between lo below hi above) rest) px py
        ≡ one_if (within lo hi px && within below above py) + cover_count rest px py
  count_vertical s n f =
      count-pushed_if (ltb_ℤ below above) _ _ rest px py
        (λ e. covers-between lo below hi above px py s (n, ltb_ℤ-le below above e, f))
        (λ e. &&-false (within lo hi px) _ (within_empty below above py e))

  count_horizontal :
      IsSpan below above
      → pos 0 ≤ℤ lo
      → Fits32 hi
      → cover_count (pushed_if (ltb_ℤ lo hi) (between lo below hi above) rest) px py
        ≡ one_if (within lo hi px && within below above py) + cover_count rest px py
  count_horizontal s n f =
      count-pushed_if (ltb_ℤ lo hi) _ _ rest px py
        (λ e. covers-between lo below hi above px py (n, ltb_ℤ-le lo hi e, f) s)
        (λ e. false-&& _ (within below above py) (within_empty lo hi px e))

Fits32-between : (a b c : ℤ) → pos 0 ≤ℤ a → a ≤ℤ b → b ≤ℤ c → Fits32 c → Fits32 b
Fits32-between a b c n h k f = ground arith

-- The strips by their corners.
corner_strips : ℤ → ℤ → ℤ → ℤ → ℤ → ℤ → ℤ → ℤ → List Rect
corner_strips a1 a2 b1 b2 x1 x2 y1 y2 = pushed_if (ltb_ℤ b1 y1) (between a1 b1 a2 y1) (
    pushed_if (ltb_ℤ y2 b2) (between a1 y2 a2 b2) (
      pushed_if (ltb_ℤ a1 x1) (between a1 y1 x1 y2)
        (pushed_if (ltb_ℤ x2 a2) (between x2 y1 a2 y2) [])))

-- The outer span, and the inner one that it holds.
abbrev Holds : ℤ → ℤ → ℤ → ℤ → Type 0
Holds a b c d = (pos 0 ≤ℤ a) × (a ≤ℤ c) × (c ≤ℤ d) × (d ≤ℤ b) × Fits32 b

count_corners :
    (a1 a2 b1 b2 x1 x2 y1 y2 px py : ℤ)
    → Holds a1 a2 x1 x2
    → Holds b1 b2 y1 y2
    → cover_count (corner_strips a1 a2 b1 b2 x1 x2 y1 y2) px py
      ≡ one_if ((within a1 a2 px && within b1 b2 py) && not (within x1 x2 px && within y1 y2 py))
unfolding corner_strips
count_corners a1 a2 b1 b2 x1 x2 y1 y2 px py (na, ax, xx, xa, fa) (nb, by, yy, yb, fb) =
    let fx2 : Fits32 x2 = Fits32-between a1 x2 a2 na (omega arith) xa fa in
    let fy2 : Fits32 y2 = Fits32-between b1 y2 b2 nb (omega arith) yb fb in
    let wide : IsSpan a1 a2 = (na, omega arith, fa) in
    let inner : IsSpan y1 y2 = (omega arith, yy, fy2) in
    let more = λ (b : Bool) (n : ℕ). one_if b + n in
    count_vertical a1 a2 b1 y1 px py _ wide nb (Fits32-between b1 y1 y2 nb by yy fy2)
    ∙ ap (more (within a1 a2 px && within b1 y1 py)) (
        count_vertical a1 a2 y2 b2 px py _ wide (omega arith) fb
        ∙ ap (more (within a1 a2 px && within y2 b2 py)) (
            count_horizontal a1 x1 y1 y2 px py _ inner na (Fits32-between a1 x1 x2 na ax xx fx2)
            ∙ ap (more (within a1 x1 px && within y1 y2 py))
                (count_horizontal x2 a2 y1 y2 px py [] inner (omega arith) fa)))
    ∙ cut_count _ (within a1 x1 px) _ (within x2 a2 px) _ (within b1 y1 py) _ (within y2 b2 py)
        (within_parts a1 a2 x1 x2 px ax xx xa) (within_parts b1 b2 y1 y2 py by yy yb)

-- A size is the distance of the ends, and the ends are where i32 puts them.
size-sub : (a w : ℤ) → pos 0 ≤ℤ a → pos 0 ≤ℤ w → Fits32 (a +ℤ w) → sub_i32 (a +ℤ w) a ≡ w
size-sub a w n k f =
    sub_i32_lem (a +ℤ w) a (Fits32-sub a (a +ℤ w) n (omega int_laws) f) ∙ omega int_laws

end_lem : (a b : ℤ) → IsSpan a b → add_i32 a (sub_i32 b a) ≡ b
unfolding add_i32
end_lem a b (n, h, f) = ap wrap32 (end-sub a b n h f) ∙ wrap32_fits b f

strips-corners :
    (r : Rect) (x1 x2 y1 y2 : ℤ)
    → OnScreen r
    → IsSpan x1 x2
    → IsSpan y1 y2
    → strips r (between x1 y1 x2 y2)
      ≡ corner_strips r.x (r.x +ℤ r.width) r.y (r.y +ℤ r.height) x1 x2 y1 y2
unfolding strips corner_strips
strips-corners r x1 x2 y1 y2 o sx sy =
    rw
      (
        end_lem x1 x2 sx,
        end_lem y1 y2 sy,
        add_i32_lem r.x r.width o.right_fits,
        add_i32_lem r.y r.height o.bottom_fits,
        size-sub r.x r.width o.x_nonneg o.width_nonneg o.right_fits,
      )
      refl

-- Where two rectangles meet, by their corners.
abbrev lo_x : Rect → Rect → ℤ
lo_x r o = max_ℤ r.x o.x

abbrev hi_x : Rect → Rect → ℤ
hi_x r o = min_ℤ (r.x +ℤ r.width) (o.x +ℤ o.width)

abbrev lo_y : Rect → Rect → ℤ
lo_y r o = max_ℤ r.y o.y

abbrev hi_y : Rect → Rect → ℤ
hi_y r o = min_ℤ (r.y +ℤ r.height) (o.y +ℤ o.height)

meeting : Rect → Rect → Bool
meeting r o = ltb_ℤ (lo_x r o) (hi_x r o) && ltb_ℤ (lo_y r o) (hi_y r o)

met : Rect → Rect → Rect
met r o = between (lo_x r o) (lo_y r o) (hi_x r o) (hi_y r o)

intersection-met :
    (r o : Rect)
    → OnScreen r
    → OnScreen o
    → intersection r o ≡ (if meeting r o then some (met r o) else none)
unfolding intersection meeting met
intersection-met r o a b =
    rw
      (
        add_i32_lem r.x r.width a.right_fits,
        add_i32_lem r.y r.height a.bottom_fits,
        add_i32_lem o.x o.width b.right_fits,
        add_i32_lem o.y o.height b.bottom_fits,
      )
      refl

-- The span that two spans share is in the first one.
shared-Holds :
    (a b c d : ℤ)
    → pos 0 ≤ℤ a
    → Fits32 b
    → ltb_ℤ (max_ℤ a c) (min_ℤ b d) ≡ true
    → Holds a b (max_ℤ a c) (min_ℤ b d)
unfolding max_ℤ min_ℤ
shared-Holds a b c d n f h = (n, ground arith, ltb_ℤ-le (max_ℤ a c) (min_ℤ b d) h, ground arith, f)

Holds-IsSpan : (a b c d : ℤ) → Holds a b c d → IsSpan c d
Holds-IsSpan a b c d (n, h, k, l, f) = (omega arith, k, Fits32-between a d b n (omega arith) l f)

bool_cut :
    (rx ry cx cy : Bool)
    → one_if ((rx && ry) && not ((rx && cx) && (ry && cy))) ≡ one_if ((rx && ry) && not (cx && cy))
bool_cut rx ry cx cy = ground arith

bool_apart :
    (rx ry cx cy : Bool)
    → ((rx && cx) && (ry && cy)) ≡ false
    → one_if (rx && ry) + 0 ≡ one_if ((rx && ry) && not (cx && cy))
bool_apart rx ry cx cy h = ground arith

module _ (r o : Rect) (px py : ℤ) (a : OnScreen r) (b : OnScreen o) where
  -- The points of the overlap are those of both rectangles.
  overlap_covers : (within (lo_x r o) (hi_x r o) px && within (lo_y r o) (hi_y r o) py) ≡ (
      (within r.x (r.x +ℤ r.width) px && within o.x (o.x +ℤ o.width) px)
      && (within r.y (r.y +ℤ r.height) py && within o.y (o.y +ℤ o.height) py))
  overlap_covers =
      rw
        (
          within_both r.x (r.x +ℤ r.width) o.x (o.x +ℤ o.width) px,
          within_both r.y (r.y +ℤ r.height) o.y (o.y +ℤ o.height) py,
        )
        refl

  apart :
      meeting r o ≡ false
      → ((within r.x (r.x +ℤ r.width) px && within o.x (o.x +ℤ o.width) px)
          && (within r.y (r.y +ℤ r.height) py && within o.y (o.y +ℤ o.height) py))
        ≡ false
  unfolding meeting
  apart h = sym overlap_covers ∙ empty_product (lo_x r o) (hi_x r o) (lo_y r o) (hi_y r o) px py h
    where
      empty_product :
          (x1 x2 y1 y2 p q : ℤ)
          → (ltb_ℤ x1 x2 && ltb_ℤ y1 y2) ≡ false
          → (within x1 x2 p && within y1 y2 q) ≡ false
      empty_product x1 x2 y1 y2 p q h = ground arith

  -- The rectangles that are left cover each point of the first one that is not in the second, once, and no
  -- other point; both lie in the coordinates that i32 counts from zero.
  pub cover_count-subtract :
      cover_count (subtract r o) px py ≡ one_if (covers r px py && not (covers o px py))
  unfolding subtract meeting met
  cover_count-subtract = elim (Bool-cases (meeting r o)) [
    | inl e ↦
        (let split = and_true (ltb_ℤ (lo_x r o) (hi_x r o)) _ e in
          let hx =
            shared-Holds r.x (r.x +ℤ r.width) o.x (o.x +ℤ o.width) a.x_nonneg a.right_fits
              split.0 in
          let hy =
            shared-Holds r.y (r.y +ℤ r.height) o.y (o.y +ℤ o.height) a.y_nonneg a.bottom_fits
              split.1 in
          rw (intersection-met r o a b, subtract)
            (rw e (
              ap (λ (l : List Rect). cover_count l px py)
                (strips-corners r _ _ _ _ a (Holds-IsSpan r.x (r.x +ℤ r.width) _ _ hx)
                  (Holds-IsSpan r.y (r.y +ℤ r.height) _ _ hy))
              ∙ count_corners _ _ _ _ _ _ _ _ px py hx hy
              ∙ ap (λ (c : Bool). one_if (covers r px py && not c)) overlap_covers
              ∙ bool_cut (within r.x (r.x +ℤ r.width) px) (within r.y (r.y +ℤ r.height) py) _ _)))
    | inr e ↦
        rw (intersection-met r o a b, subtract)
          (rw e (
            bool_apart (within r.x (r.x +ℤ r.width) px) (within r.y (r.y +ℤ r.height) py) _ _
              (apart e)))
  ]
    where
      and_true : (p q : Bool) → (p && q) ≡ true → (p ≡ true) × (q ≡ true)
      and_true true q h = (refl, h)
      and_true false q h = cc
