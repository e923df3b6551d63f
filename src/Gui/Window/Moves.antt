-- ===== src/Gui/Window/Moves.antt =====
-- The drag engine of kernel/src/gui/graphics.rs: the window stays on the screen, and what changes is damaged.
pub mod Dragging
use kafka_os.Base.{
  ℕ, zero, suc, ◌+◌, ◌-◌, ◌^◌, ◌≤◌, ◌<◌, ◌≡◌, ◌∙◌, ◌⊎◌, inl, inr, refl, sym, ap, Bool, true, false,
  ◌&&◌, ◌||◌, not, Option, none, some, List, [], ◌∷◌, ◌++◌, if◌then◌else◌, ◌>>=◌, arith, leb, ltb,
  ◌==◌, dec_lt, Bool-cases,
}
use kafka_os.Base.Int.{
  ℤ, pos, negsuc, pos_part, neg_part, ◌≤ℤ◌, ◌+ℤ◌, ltb_ℤ, leb_ℤ, eqb_ℤ, add_i32, sub_i32, signed32,
  add_i32-pos, sub_i32-pos,
}
use kafka_os.Gui.Geometry.{Rect}
use kafka_os.Gui.Geometry.Cover.{covers, within, cover_count}
use kafka_os.Gui.Mouse.{clamp}
use kafka_os.Gui.Mouse.Gesture.{clamp-some}
use kafka_os.Gui.Window.{Window, rect_at, rect, x_damage, y_damage, move_to, drag}

pub signed32-pos : (n : ℕ) → n < 2 ^ 31 → signed32 n ≡ pos n
unfolding signed32
signed32-pos n h = ground arith

cover_count-append :
    (rs ss : List Rect) (px py : ℤ)
    → cover_count (rs ++ ss) px py ≡ cover_count rs px py + cover_count ss px py
cover_count-append [] ss px py = omega arith
cover_count-append (r ∷ rs) ss px py = let ih = cover_count-append rs ss px py in omega arith

-- A place of a window in one direction, which i32 counts.
abbrev IsPlace : ℕ → ℕ → Type 0
IsPlace a w = a + w < 2 ^ 31

abbrev at : ℕ → ℕ → ℕ → ℕ → Rect
at x y w h = record { x = pos x; y = pos y; width = pos w; height = pos h }

x_damage-covers :
    (x y w h n : ℕ) (px py : ℤ)
    → IsPlace x w
    → IsPlace y h
    → IsPlace n w
    → covers (at x y w h) px py ≡ true
    → within (pos n) (pos n +ℤ pos w) px ≡ false
    → 0 < cover_count (x_damage (pos x) (pos y) w h (pos n)) px py
unfolding x_damage ◌+ℤ◌
x_damage-covers x y w h n px py hx hy hn old out = elim (dec_lt n x) [
  | yes k ↦
      let test : ltb (n + 0) (x + 0) ≡ true = ground arith in
      rw
        (
          test,
          signed32-pos w (omega arith),
          signed32-pos h (omega arith),
          add_i32-pos n w hn,
          sub_i32-pos x n (omega arith) (omega arith),
        )
        (ground arith)
  | no k ↦ elim (dec_lt x n) [
    | yes l ↦
        let test : ltb (n + 0) (x + 0) ≡ false = ground arith in
        let test2 : ltb (x + 0) (n + 0) ≡ true = ground arith in
        rw (test, test2, signed32-pos h (omega arith), sub_i32-pos n x (omega arith) (omega arith))
          (ground arith)
    | no l ↦ let same : x ≡ n = omega arith in absurd (ground arith)
  ]
]

y_damage-covers :
    (x y w h n : ℕ) (px py : ℤ)
    → IsPlace x w
    → IsPlace y h
    → IsPlace n h
    → covers (at x y w h) px py ≡ true
    → within (pos n) (pos n +ℤ pos h) py ≡ false
    → 0 < cover_count (y_damage (pos x) (pos y) w h (pos n)) px py
unfolding y_damage ◌+ℤ◌
y_damage-covers x y w h n px py hx hy hn old out = elim (dec_lt n y) [
  | yes k ↦
      let test : ltb (n + 0) (y + 0) ≡ true = ground arith in
      rw
        (
          test,
          signed32-pos w (omega arith),
          signed32-pos h (omega arith),
          add_i32-pos n h hn,
          sub_i32-pos y n (omega arith) (omega arith),
        )
        (ground arith)
  | no k ↦ elim (dec_lt y n) [
    | yes l ↦
        let test : ltb (n + 0) (y + 0) ≡ false = ground arith in
        let test2 : ltb (y + 0) (n + 0) ≡ true = ground arith in
        rw (test, test2, signed32-pos w (omega arith), sub_i32-pos n y (omega arith) (omega arith))
          (ground arith)
    | no l ↦ let same : y ≡ n = omega arith in absurd (ground arith)
  ]
]

abbrev move_damage : ℤ → ℤ → ℕ → ℕ → ℤ → ℤ → List Rect
move_damage x y w h n m = x_damage x y w h n ++ (y_damage x y w h m ++ (rect_at n m w h ∷ []))

new_place-covers :
    (w h n m : ℕ) (px py : ℤ)
    → w < 2 ^ 31
    → h < 2 ^ 31
    → within (pos n) (pos n +ℤ pos w) px ≡ true
    → within (pos m) (pos m +ℤ pos h) py ≡ true
    → 0 < cover_count (rect_at (pos n) (pos m) w h ∷ []) px py
new_place-covers w h n m px py hw hh ex ey =
    rw (signed32-pos w hw, signed32-pos h hh, ex, ey) (omega arith)

move_damage-covers :
    (x y w h n m : ℕ) (px py : ℤ)
    → IsPlace x w
    → IsPlace y h
    → IsPlace n w
    → IsPlace m h
    → (covers (at x y w h) px py || covers (at n m w h) px py) ≡ true
    → 0 < cover_count (move_damage (pos x) (pos y) w h (pos n) (pos m)) px py
move_damage-covers x y w h n m px py hx hy hn hm seen =
    let xs = x_damage (pos x) (pos y) w h (pos n) in
    let ys = y_damage (pos x) (pos y) w h (pos m) in
    let new = rect_at (pos n) (pos m) w h ∷ [] in
    let sum = cover_count-append xs (ys ++ new) px py in
    let sum2 = cover_count-append ys new px py in
    elim (Bool-cases (within (pos n) (pos n +ℤ pos w) px)) [
      | inl ex ↦ elim (Bool-cases (within (pos m) (pos m +ℤ pos h) py)) [
        | inl ey ↦
            let found = new_place-covers w h n m px py (omega arith) (omega arith) ex ey in
            omega arith
        | inr ey ↦
            let old : covers (at x y w h) px py ≡ true = ground arith in
            let found = y_damage-covers x y w h m px py hx hy hm old ey in omega arith
      ]
      | inr ex ↦
          let old : covers (at x y w h) px py ≡ true = ground arith in
          let found = x_damage-covers x y w h n px py hx hy hn old ex in omega arith
    ]

-- The span from a coordinate is on the screen of this size, at least `low` from its edge.
abbrev pub IsSpan : ℕ → ℤ → ℕ → ℕ → Type 0
IsSpan low x w size = (pos low ≤ℤ x) × (pos_part x + w ≤ size)

seen_damage :
    (x y n m : ℤ) (w h : ℕ) (px py : ℤ)
    → IsSpan 0 x w (2 ^ 31 - 1)
    → IsSpan 0 y h (2 ^ 31 - 1)
    → IsSpan 0 n w (2 ^ 31 - 1)
    → IsSpan 0 m h (2 ^ 31 - 1)
    → (covers (rect_at x y w h) px py || covers (rect_at n m w h) px py) ≡ true
    → 0 < cover_count (move_damage x y w h n m) px py
seen_damage (pos x) (pos y) (pos n) (pos m) w h px py (hx, kx) (hy, ky) (hn, kn) (hm, km) seen =
    move_damage-covers x y w h n m px py (omega arith) (omega arith) (omega arith) (omega arith)
      (rw (sym (signed32-pos w (omega arith)), sym (signed32-pos h (omega arith))) seen)
seen_damage (negsuc x) y n m w h px py (hx, kx) hy hn hm seen = absurd (omega arith)
seen_damage (pos x) (negsuc y) n m w h px py hx (hy, ky) hn hm seen = absurd (omega arith)
seen_damage (pos x) (pos y) (negsuc n) m w h px py hx hy (hn, kn) hm seen = absurd (omega arith)
seen_damage (pos x) (pos y) (pos n) (negsuc m) w h px py hx hy hn (hm, km) seen =
    absurd (omega arith)
