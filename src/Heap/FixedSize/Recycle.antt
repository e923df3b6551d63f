-- ===== src/Heap/FixedSize/Recycle.antt =====
-- A freed block of kernel/src/allocator/fixed_size_block.rs is the next that is given out for its size.
use kafka_os.Base.{
  ℕ, zero, suc, ◌≡◌, ◌≤◌, ◌<◌, ◌∙◌, refl, ◌⊎◌, inl, inr, dec_le, ap, max, true, Option, none, some,
  List, [], ◌∷◌, leb, if◌then◌else◌, get_or, set, length, arith,
}
use mathlib.Core.Option
use kafka_os.Heap.{Layout}
use kafka_os.Heap.FixedSize.{
  Fallback, FixedSizeBlockAllocator, block_sizes, first_fit, list_index, alloc_block, alloc,
  dealloc,
}

module _ {ℓ} {A : Type ℓ} where
  get_or-set : (xs : List A) (i : ℕ) (v d : A) → i < length xs → get_or (set xs i v) i d ≡ v
  get_or-set [] i v d h = absurd (omega arith)
  get_or-set (x ∷ xs) zero v d h = refl
  get_or-set (x ∷ xs) (suc i) v d h = get_or-set xs i v d (omega arith)

  set-set : (xs : List A) (i : ℕ) (v w : A) → set (set xs i v) i w ≡ set xs i w
  set-set [] i v w = refl
  set-set (x ∷ xs) zero v w = refl
  set-set (x ∷ xs) (suc i) v w = ap (◌∷◌ x) (set-set xs i v w)

  set-get_or : (xs : List A) (i : ℕ) (d : A) → set xs i (get_or xs i d) ≡ xs
  set-get_or [] i d = refl
  set-get_or (x ∷ xs) zero d = refl
  set-get_or (x ∷ xs) (suc i) d = ap (◌∷◌ x) (set-get_or xs i d)

-- Every size before the position is too small, and the size there is not.
abbrev pub FirstFit : ℕ → List ℕ → ℕ → Type 0
FirstFit n sizes i =
    (i < length sizes) × (n ≤ get_or sizes i 0) × ((j : ℕ) → j < i → get_or sizes j 0 < n)

first_cases :
    (n s i : ℕ) (o : Option ℕ)
    → (if leb n s then some 0 else Option.map suc o) ≡ some i
    → ((i ≡ 0) × (n ≤ s)) ⊎ ((s < n) × (k : ℕ) × (o ≡ some k) × (i ≡ suc k))
first_cases n s i none e = ground arith
first_cases n s i (some k) e = elim (dec_le n s) [
  | yes h ↦ inl (ground arith)
  | no h ↦ inr (omega arith, k, refl, ground arith)
]

first_fit-FirstFit :
    (n : ℕ) (sizes : List ℕ) (i : ℕ) → first_fit n sizes ≡ some i → FirstFit n sizes i
unfolding first_fit
first_fit-FirstFit n [] i e = cc
first_fit-FirstFit n (s ∷ sizes) i e = elim (first_cases n s i (first_fit n sizes) e) [
  | inl (zeroth, h) ↦ rw zeroth (omega arith, h, λ j hj. absurd (omega arith))
  | inr (h, k, later, next) ↦
      let (low, fits, least) = first_fit-FirstFit n sizes k later in
      rw next (omega arith, fits, before n s sizes k h least)
]
  where
    before :
        (n s : ℕ) (sizes : List ℕ) (k : ℕ)
        → s < n
        → ((j : ℕ) → j < k → get_or sizes j 0 < n)
        → (j : ℕ) → j < suc k
        → get_or (s ∷ sizes) j 0 < n
    before n s sizes k h least zero hj = h
    before n s sizes k h least (suc j) hj = least j (omega arith)

abbrev AllLarge : List ℕ → Type 0
AllLarge [] = Unit {0}
AllLarge (s ∷ sizes) = (leb 8 s ≡ true) × AllLarge sizes

AllLarge-get_or :
    (sizes : List ℕ) (i : ℕ) → AllLarge sizes → i < length sizes → leb 8 (get_or sizes i 0) ≡ true
AllLarge-get_or [] i h hi = absurd (omega arith)
AllLarge-get_or (s ∷ sizes) zero h hi = h.0
AllLarge-get_or (s ∷ sizes) (suc i) h hi = AllLarge-get_or sizes i h.1 (omega arith)

block_sizes-AllLarge : AllLarge block_sizes
block_sizes-AllLarge = (refl, (refl, (refl, (refl, (refl, (refl, (refl, (refl, (refl, tt)))))))))

list_index-FirstFit :
    (layout : Layout) (index : ℕ)
    → list_index layout ≡ some index
    → FirstFit (max layout.size layout.align) block_sizes index
unfolding list_index
list_index-FirstFit layout index =
    first_fit-FirstFit (max layout.size layout.align) block_sizes index

module _ {fb : Fallback} where
  alloc_block-head :
      (a : FixedSizeBlockAllocator fb) (index ptr : ℕ) (next : List ℕ)
      → alloc_block
          (record a { list_heads = set a.list_heads index (ptr ∷ next) })
          index
          (ptr ∷ next)
        ≡ (record a { list_heads = set a.list_heads index next }, some ptr)
  alloc_block-head a index ptr next =
      ap (λ (l : List (List ℕ)). (record a { list_heads = l }, some ptr))
        (set-set a.list_heads index (ptr ∷ next) next)

  -- Where a layout has a block size, giving a block back does not panic, and the next allocation with a
  -- layout of the same block size takes this block and leaves the allocator as it was before. The block size
  -- is the first that is at least the layout's size and alignment.
  pub alloc-dealloc :
      (a : FixedSizeBlockAllocator fb) (ptr : ℕ) (freed wanted : Layout) (index : ℕ)
      → length a.list_heads ≡ 9
      → list_index freed ≡ some index
      → list_index wanted ≡ some index
      → (a' : FixedSizeBlockAllocator fb) × (dealloc a ptr freed ≡ some a')
        × (alloc a' wanted ≡ (a, some ptr))
        × FirstFit (max wanted.size wanted.align) block_sizes index
  unfolding dealloc alloc
  alloc-dealloc a ptr freed wanted index hl ef ew =
      let next = get_or a.list_heads index [] in
      let a' = record a { list_heads = set a.list_heads index (ptr ∷ next) } in
      let (low, large, least) = list_index-FirstFit wanted index ew in
      let head = get_or-set a.list_heads index (ptr ∷ next) [] (omega arith) in
      let same = set-get_or a.list_heads index [] in
      let holds = AllLarge-get_or block_sizes index block_sizes-AllLarge low in
      (
        a',
        rw (ef, holds) refl,
        rw (ew, head)
            (alloc_block-head a index ptr next
              ∙ ap (λ (l : List (List ℕ)). (record a { list_heads = l }, some ptr)) same),
        (low, large, least),
      )
