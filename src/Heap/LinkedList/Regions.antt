-- ===== src/Heap/LinkedList/Regions.antt =====
-- The free regions of kernel/src/allocator/linked_list.rs: what makes them well formed, and the arithmetic
-- of blocks.
use kafka_os.Base.{
  ℕ, ◌+◌, ◌-◌, ◌*◌, ◌/◌, ◌%◌, ◌^◌, ◌≤◌, ◌<◌, ◌≡◌, ◌⊎◌, ◌&&◌, List, [], ◌∷◌, ltb, leb, if◌then◌else◌,
  arith, u64_mod,
}
use native.Mathlib.Nat.{mul-mod_left}
use kafka_os.Heap.{align_up}
use kafka_os.Heap.LinkedList.{Region, end_addr}

-- A region can hold a node, and ends below 2 ^ 63.
pub record IsRegion (r : Region) : Type 0 where
  pub aligned : r.start_addr % 8 ≡ 0
  pub whole : r.size % 8 ≡ 0
  pub large : 16 ≤ r.size
  pub end_lt : r.start_addr + r.size < 2 ^ 63

abbrev pub AreRegions : List Region → Type 0
AreRegions [] = Unit {0}
AreRegions (r ∷ rs) = IsRegion r × AreRegions rs

-- A power of two is at most 4 or a multiple of 8.
abbrev pub IsAlign : ℕ → Type 0
IsAlign a = ((a ≡ 1) ⊎ (a ≡ 2) ⊎ (a ≡ 4) ⊎ ((k : ℕ) × (a ≡ k * 8) × (0 < k))) × (a < 2 ^ 62)

-- Of how many regions an address is a byte.
abbrev pub in_block : ℕ → ℕ → ℕ → ℕ
in_block start end a = if leb start a && ltb a end then 1 else 0

abbrev pub free_count : List Region → ℕ → ℕ
free_count [] a = 0
free_count (r ∷ rs) a = in_block r.start_addr (end_addr r) a + free_count rs a

pub times_eight : (q k : ℕ) → (q * (k * 8)) % 8 ≡ 0
times_eight q k = grind arith

pub div_mul_le : (x a : ℕ) → 0 < a → (x / a * a ≤ x) × (x < x / a * a + a)
div_mul_le x a h = grind arith

-- What a request for memory is rounded to: whole words, room for a node, and a multiple of 8 to stand at.
pub record IsRequest (sz a : ℕ) : Type 0 where
  pub words : ℕ
  pub align_eq : a ≡ words * 8
  pub words_pos : 0 < words
  pub align_lt : a < 2 ^ 62
  pub whole : sz % 8 ≡ 0
  pub large : 16 ≤ sz
  pub size_lt : sz < 2 ^ 63

-- Where a request stands in a region: at the first multiple of the alignment, and behind it is nothing, or
-- room for a node.
pub record Fits (r : Region) (sz a s : ℕ) : Type 0 where
  pub start_le : r.start_addr ≤ s
  pub start_near : s < r.start_addr + a
  pub aligned : s % a ≡ 0
  pub whole : s % 8 ≡ 0
  pub end_le : s + sz ≤ end_addr r
  pub excess : (end_addr r ≡ s + sz) ⊎ (s + sz + 16 ≤ end_addr r)

pub align_up_bounds :
    (x a : ℕ) → 0 < a → x < 2 ^ 63 → a < 2 ^ 62 → (x ≤ align_up x a) × (align_up x a < x + a)
unfolding align_up
align_up_bounds x a h hx ha =
    let e : (x + a - 1) % u64_mod ≡ x + a - 1 = omega arith in
    let (low, high) = div_mul_le (x + a - 1) a h in rw e (omega arith, omega arith)

pub align_up-mod : (x a : ℕ) → align_up x a % a ≡ 0
unfolding align_up
align_up-mod x a = mul-mod_left ((x + a - 1) % u64_mod / a) a

pub align_up-eight : (x k : ℕ) → align_up x (k * 8) % 8 ≡ 0
unfolding align_up
align_up-eight x k = times_eight ((x + k * 8 - 1) % u64_mod / (k * 8)) k

-- A region of a list.
abbrev pub IsIn : Region → List Region → Type 0
IsIn r [] = ⊥
IsIn r (q ∷ rs) = (q ≡ r) ⊎ IsIn r rs

-- A request stands in no region of a list.
abbrev pub NoRoom : ℕ → ℕ → List Region → Type 0
NoRoom sz a [] = Unit {0}
NoRoom sz a (r ∷ rs) = ((s : ℕ) → ¬ Fits r sz a s) × NoRoom sz a rs

-- Two multiples are apart.
pub same_multiple :
    (s t x a : ℕ) → 0 < a → s % a ≡ 0 → t % a ≡ 0 → x ≤ s → s < x + a → x ≤ t → t < x + a → s ≡ t
same_multiple s t x a pos hs ht sl sh tl th = grind arith
