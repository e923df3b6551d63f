-- ===== src/Vm/AreaList.antt =====
-- The area list of kernel/src/vm.rs as a map from addresses to areas.
use kafka_os.Base.{
  ℕ, suc, ◌≤◌, ◌<◌, ◌≡◌, ◌⊎◌, refl, ◌∙◌, Option, none, some, true, false, List, [], ◌∷◌, ltb,
  if◌then◌else◌, get_elem?, arith, Bool-cases, inl, inr,
}
use mathlib.Core.Option
use kafka_os.Vm.Area.{VmArea, contains, position, find_vma, insert_vma, overlaps, remove_vma_range}

abbrev pub at_index : List VmArea → Option ℕ → Option VmArea
at_index vs none = none
at_index vs (some i) = get_elem? vs i

-- The area that a fault at an address is charged to.
unfoldable pub area_at : List VmArea → ℕ → Option VmArea
area_at vs addr = at_index vs (find_vma vs addr)

at_index-suc :
    (v : VmArea) (vs : List VmArea) (o : Option ℕ)
    → at_index (v ∷ vs) (Option.map suc o) ≡ at_index vs o
at_index-suc v vs none = refl
at_index-suc v vs (some i) = refl

pub area_at-cons :
    (v : VmArea) (vs : List VmArea) (addr : ℕ)
    → area_at (v ∷ vs) addr ≡ (if contains v addr then some v else area_at vs addr)
unfolding area_at find_vma
area_at-cons v vs addr = elim (Bool-cases (contains v addr)) [
  | inl e ↦ rw e
  | inr e ↦ rw e (at_index-suc v vs (position (λ vma. contains vma addr) vs))
]

-- Two areas have no address in common.
abbrev pub Apart : VmArea → VmArea → Type 0
Apart v w = (v.end ≤ w.start) ⊎ (w.end ≤ v.start)

abbrev pub AllApart : VmArea → List VmArea → Type 0
AllApart v [] = Unit {0}
AllApart v (w ∷ ws) = Apart v w × AllApart v ws

-- Sorted by start.
abbrev pub StartsFrom : ℕ → List VmArea → Type 0
StartsFrom n [] = Unit {0}
StartsFrom n (v ∷ vs) = (n ≤ v.start) × StartsFrom v.start vs

abbrev pub AreDisjoint : List VmArea → Type 0
AreDisjoint [] = Unit {0}
AreDisjoint (v ∷ vs) = AllApart v vs × AreDisjoint vs

area_at_apart :
    (v : VmArea) (vs : List VmArea) (addr : ℕ)
    → AllApart v vs
    → contains v addr ≡ true
    → area_at vs addr ≡ none
area_at_apart v [] addr h c = unfold area_at find_vma position in refl
area_at_apart v (w ∷ ws) addr h c =
    area_at-cons w ws addr ∙ ground (arith, area_at_apart v ws addr h.1 c)

-- Inserting an area apart from the others maps its addresses to it and leaves all others as they were.
pub area_at-insert_vma :
    (vs : List VmArea) (v : VmArea) (addr : ℕ)
    → AllApart v vs
    → area_at (insert_vma vs v) addr ≡ (if contains v addr then some v else area_at vs addr)
unfolding insert_vma
area_at-insert_vma [] v addr h = area_at-cons v [] addr
area_at-insert_vma (w ∷ ws) v addr h = ground (
  arith,
  area_at-cons v (w ∷ ws) addr,
  area_at-cons w ws addr,
  area_at-cons w (insert_vma ws v) addr,
  area_at-insert_vma ws v addr h.1,
)

StartsFrom-insert_vma :
    (n : ℕ) (vs : List VmArea) (v : VmArea)
    → n ≤ v.start
    → StartsFrom n vs
    → StartsFrom n (insert_vma vs v)
unfolding insert_vma
StartsFrom-insert_vma n [] v h s = (h, tt)
StartsFrom-insert_vma n (w ∷ ws) v h s = ground (arith, StartsFrom-insert_vma w.start ws v)

AllApart-insert_vma :
    (u : VmArea) (vs : List VmArea) (v : VmArea)
    → Apart u v
    → AllApart u vs
    → AllApart u (insert_vma vs v)
unfolding insert_vma
AllApart-insert_vma u [] v a h = (a, tt)
AllApart-insert_vma u (w ∷ ws) v a h = elim (Bool-cases (ltb v.start w.start)) [
  | inl e ↦ rw e (a, h)
  | inr e ↦ rw e (h.0, AllApart-insert_vma u ws v a h.1)
]

Apart-sym : (v w : VmArea) → Apart v w → Apart w v
Apart-sym v w (inl h) = inr h
Apart-sym v w (inr h) = inl h

AreDisjoint-insert_vma :
    (vs : List VmArea) (v : VmArea) → AllApart v vs → AreDisjoint vs → AreDisjoint (insert_vma vs v)
unfolding insert_vma
AreDisjoint-insert_vma [] v h d = (tt, tt)
AreDisjoint-insert_vma (w ∷ ws) v h d = elim (Bool-cases (ltb v.start w.start)) [
  | inl e ↦ rw e (h, d)
  | inr e ↦
      rw e (AllApart-insert_vma w ws v (Apart-sym v w h.0) d.0, AreDisjoint-insert_vma ws v h.1 d.1)
]

-- An area list as `load_elf` builds it: in order of the starts, no address in two areas.
pub record IsAreaMap (vs : List VmArea) : Type 0 where
  pub sorted : StartsFrom 0 vs
  pub disjoint : AreDisjoint vs

-- Inserting an area apart from the others keeps the list sorted and disjoint.
pub insert_vma-IsAreaMap :
    (vs : List VmArea) (v : VmArea) → AllApart v vs → IsAreaMap vs → IsAreaMap (insert_vma vs v)
insert_vma-IsAreaMap vs v h m = record {
  sorted = StartsFrom-insert_vma 0 vs v (omega arith) m.sorted;
  disjoint = AreDisjoint-insert_vma vs v h m.disjoint;
}

-- After the removal of a range no address in it is in an area.
pub area_at-remove_vma_range :
    (vs : List VmArea) (start end addr : ℕ)
    → start ≤ addr
    → addr < end
    → area_at (remove_vma_range vs start end).0 addr ≡ none
unfolding remove_vma_range
area_at-remove_vma_range [] start end addr h k = unfold area_at find_vma position in refl
area_at-remove_vma_range (v ∷ vs) start end addr h k = ground (
  arith,
  area_at-cons v (remove_vma_range vs start end).0 addr,
  area_at-remove_vma_range vs start end addr h k,
)

-- In a list of disjoint areas, an address in an area that does not meet the removed range stays in it.
area_at-remove_vma_range_kept :
    (vs : List VmArea) (start end addr : ℕ) (v : VmArea)
    → AreDisjoint vs
    → area_at vs addr ≡ some v
    → overlaps start end v ≡ false
    → area_at (remove_vma_range vs start end).0 addr ≡ some v
unfolding remove_vma_range
area_at-remove_vma_range_kept [] start end addr v d e o = e
area_at-remove_vma_range_kept (w ∷ ws) start end addr v d e o = ground (
  arith,
  area_at-cons w ws addr,
  area_at-cons w (remove_vma_range ws start end).0 addr,
  area_at-remove_vma_range_kept ws start end addr v d.1,
)
