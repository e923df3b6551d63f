-- ===== src/Gui/Paint/Brush.antt =====
-- The square that a click of kernel/src/gui/paint.rs paints.
use kafka_os.Base.{
  ℕ, zero, suc, ◌+◌, ◌-◌, ◌*◌, ◌^◌, ◌≤◌, ◌<◌, ◌≡◌, ◌∙◌, inl, inr, refl, sym, ap, Bool, false, ◌&&◌,
  some, List, [], ◌∷◌, ltb, ◌==◌, if◌then◌else◌, length, get_elem?, set, length-set, arith,
  Bool-cases, dec_le,
}
use kafka_os.Base.Int.{
  ℤ, pos, negsuc, sub_ℕ, ◌+ℤ◌, ◌-ℤ◌, add_i32, sub_i32, add_i32_lem, sub_i32_lem,
}
use kafka_os.Gui.Paint.{CanvasPixel, put_pixel}

get_elem?-set :
    (xs : List CanvasPixel) (i j : ℕ) (v : CanvasPixel)
    → i < length xs
    → get_elem? (set xs i v) j ≡ (if i == j then some v else get_elem? xs j)
get_elem?-set [] i j v h = absurd (omega arith)
get_elem?-set (x ∷ xs) zero zero v h = refl
get_elem?-set (x ∷ xs) zero (suc j) v h =
    let other : (0 == suc j) ≡ false = ground arith in
    sym (ap (λ (b : Bool). if b then some v else get_elem? xs j) other)
get_elem?-set (x ∷ xs) (suc i) zero v h =
    let other : (suc i == 0) ≡ false = ground arith in
    sym (ap (λ (b : Bool). if b then some v else some x) other)
get_elem?-set (x ∷ xs) (suc i) (suc j) v h =
    let same : (i == j) ≡ (suc i == suc j) = ground arith in
    get_elem?-set xs i j v (omega arith)
    ∙ ap (λ (b : Bool). if b then some v else get_elem? xs j) same

pub add_off :
    (c k n : ℕ) → c + k < 2 ^ 31 → n < 2 ^ 31 → add_i32 (pos c) (sub_ℕ k n) ≡ sub_ℕ (c + k) n
unfolding ◌+ℤ◌
add_off c k n h l = add_i32_lem (pos c) (sub_ℕ k n) (ground arith) ∙ ground arith

pub next_off :
    (k n : ℕ) → k + 1 < 2 ^ 31 → n < 2 ^ 31 → add_i32 (sub_ℕ k n) (pos 1) ≡ sub_ℕ (k + 1) n
unfolding ◌+ℤ◌
next_off k n h l = add_i32_lem (sub_ℕ k n) (pos 1) (ground arith) ∙ ground arith

pub first_off : (n : ℕ) → n < 2 ^ 31 → sub_i32 (pos 0) (pos n) ≡ sub_ℕ 0 n
unfolding ◌-ℤ◌
first_off n h = sub_i32_lem (pos 0) (pos n) (ground arith) ∙ ground arith

-- The place of a pixel of the canvas tells its row and its column.
same_place :
    (x y u v : ℕ) → x < 270 → u < 270 → ((v * 270 + u) == (y * 270 + x)) ≡ ((u == x) && (v == y))
same_place x y u v h k = ground arith

put_pixel-pos :
    (canvas : List CanvasPixel) (color : CanvasPixel) (u v x y : ℕ)
    → length canvas ≡ 72900
    → x < 270
    → y < 270
    → get_elem? (put_pixel canvas color (pos u) (pos v)) (y * 270 + x)
      ≡ (if (u == x) && (v == y) then some color else get_elem? canvas (y * 270 + x))
put_pixel-pos canvas color u v x y size hx hy = elim (Bool-cases (ltb u 270 && ltb v 270)) [
  | inl e ↦
      let u_lt : u < 270 = ground arith in
      let v_lt : v < 270 = ground arith in
      rw e (
        get_elem?-set canvas (v * 270 + u) (y * 270 + x) color (omega arith)
        ∙ ap (λ (b : Bool). if b then some color else get_elem? canvas (y * 270 + x))
            (same_place x y u v hx u_lt))
  | inr e ↦ let other : ((u == x) && (v == y)) ≡ false = ground arith in rw (e, other) refl
]

sub_pos : (a n : ℕ) → n ≤ a → sub_ℕ a n ≡ pos (a - n)
sub_pos a n h = ground arith

sub_neg : (a n : ℕ) → a < n → sub_ℕ a n ≡ negsuc (n - a - 1)
sub_neg a n h = ground arith

pub put_pixel-off :
    (canvas : List CanvasPixel) (color : CanvasPixel) (a n b m x y : ℕ)
    → length canvas ≡ 72900
    → x < 270
    → y < 270
    → get_elem? (put_pixel canvas color (sub_ℕ a n) (sub_ℕ b m)) (y * 270 + x)
      ≡ (if (a == x + n) && (b == y + m) then some color else get_elem? canvas (y * 270 + x))
put_pixel-off canvas color a n b m x y size hx hy = elim (dec_le n a) [
  | no left ↦
      let other : ((a == x + n) && (b == y + m)) ≡ false = ground arith in
      rw (sub_neg a n (omega arith), other) refl
  | yes right ↦ elim (dec_le m b) [
    | no above ↦
        let other : ((a == x + n) && (b == y + m)) ≡ false = ground arith in
        rw (sub_pos a n right, sub_neg b m (omega arith), other) refl
    | yes below ↦
        let same : ((a - n == x) && (b - m == y)) ≡ ((a == x + n) && (b == y + m)) = ground arith in
        rw (sub_pos a n right, sub_pos b m below)
          (put_pixel-pos canvas color (a - n) (b - m) x y size hx hy
            ∙ ap (λ (t : Bool). if t then some color else get_elem? canvas (y * 270 + x)) same)
  ]
]

pub put_pixel-length :
    (canvas : List CanvasPixel) (color : CanvasPixel) (px py : ℤ)
    → length (put_pixel canvas color px py) ≡ length canvas
put_pixel-length canvas color (pos px) (pos py) = elim (Bool-cases (ltb px 270 && ltb py 270)) [
  | inl e ↦ rw e (length-set canvas (py * 270 + px) color)
  | inr e ↦ rw e refl
]
put_pixel-length canvas color (pos px) (negsuc py) = refl
put_pixel-length canvas color (negsuc px) py = refl
