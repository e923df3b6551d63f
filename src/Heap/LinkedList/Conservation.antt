-- ===== src/Heap/LinkedList/Conservation.antt =====
-- `alloc` and `dealloc` of kernel/src/allocator/linked_list.rs: no byte is given out twice.
use kafka_os.Base.{
  ℕ, ◌+◌, ◌-◌, ◌*◌, ◌/◌, ◌%◌, ◌^◌, ◌≤◌, ◌<◌, ◌≡◌, ◌⊎◌, ◌∙◌, sym, inl, inr, refl, max, true, none,
  some, List, ◌∷◌, ltb, arith, Option-cases,
}
use kafka_os.Heap.{Layout}
use kafka_os.Heap.LinkedList.{Region, size_align, find_region, alloc, dealloc}
use kafka_os.Heap.LinkedList.Regions.{
  AreRegions, IsAlign, in_block, free_count, IsRequest, IsIn, NoRoom, div_mul_le, times_eight,
}
use kafka_os.Heap.LinkedList.Search.{find_region-IsFound, find_region-NoRoom}
use kafka_os.Heap.LinkedList.Split.{
  Allocated, in_block-split, split_region-SplitTo, add_free_region-some,
}

align_words : (a : ℕ) → IsAlign a → (k : ℕ) × (max a 8 ≡ k * 8) × (0 < k) × (max a 8 < 2 ^ 62)
align_words a (inl e, h) = (1, ground arith, ground arith, ground arith)
align_words a (inr (inl e), h) = (1, ground arith, ground arith, ground arith)
align_words a (inr (inr (inl e)), h) = (1, ground arith, ground arith, ground arith)
align_words a (inr (inr (inr (k, e, p))), h) =
    let m : max a 8 ≡ a = ground arith in (k, m ∙ e, p, ground arith)

-- What a layout asks for.
abbrev pub Request : Layout → ℕ → Type 0
Request layout sz =
    (size_align layout ≡ some (sz, max layout.align 8))
    × IsRequest sz (max layout.align 8)
    × (layout.size ≤ sz)
    × (sz < max 17 (layout.size + max layout.align 8))

pub size_align-Request :
    (layout : Layout) → IsAlign layout.align → layout.size < 2 ^ 62 → (sz : ℕ) × Request layout sz
unfolding size_align
size_align-Request layout ha hs =
    let a = max layout.align 8 in
    let (k, e, p, lt) = align_words layout.align ha in
    let padded = (layout.size + a - 1) / a * a in
    let pos : 0 < a = omega arith in
    let (low, high) = div_mul_le (layout.size + a - 1) a pos in
    let small : ltb padded (2 ^ 63) ≡ true = ground arith in
    let eight : padded % 8 ≡ 0 = rw e (times_eight ((layout.size + k * 8 - 1) / (k * 8)) k) in
    (
      max padded 16,
      (
        rw small refl,
        record {
          words = k;
          align_eq = e;
          words_pos = p;
          align_lt = lt;
          whole = ground arith;
          large = ground arith;
          size_lt = ground arith;
        },
        ground arith,
        (let p : padded < layout.size + a = omega arith in ground arith),
      ),
    )

abbrev pub AllocTo : List Region → Layout → ℕ → Type 0
AllocTo rs layout sz =
    ((alloc rs layout ≡ some (rs, none)) × NoRoom sz (max layout.align 8) rs)
    ⊎ ((rs' : List Region) × (s : ℕ) × (alloc rs layout ≡ some (rs', some s))
        × Allocated rs sz (max layout.align 8) rs' s)

alloc-AllocTo :
    (rs : List Region) (layout : Layout) (sz : ℕ)
    → AreRegions rs
    → Request layout sz
    → AllocTo rs layout sz
unfolding alloc
alloc-AllocTo rs layout sz hrs (e, q, large, small) =
    elim (Option-cases (find_region rs sz (max layout.align 8))) [
      | inl nothing ↦
          inl (rw (e, nothing) refl, find_region-NoRoom rs sz (max layout.align 8) hrs q nothing)
      | inr (f, found) ↦
          let h = find_region-IsFound rs sz (max layout.align 8) f hrs q found in
          let (rs', split, done) = split_region-SplitTo rs sz (max layout.align 8) f h q in
          inr (rs', f.alloc_start, rw (e, found) split, done)
    ]

-- Allocating from well-formed free regions, for an alignment that is a power of two below 2 ^ 62 and a size
-- below 2 ^ 62, does not panic. Where a region has room for the wanted size, rounded up, at its first
-- multiple of the alignment, with nothing behind it or at least 16 bytes, there is a block of at least the
-- wanted size, at most 16 bytes or less than an alignment larger, at that multiple in a region of the list; the regions stay well formed; and every byte is as
-- often free as before, but for the bytes from the start of the region that was taken to the end of the
-- block, which are each free once less. Where no region has room, the regions stay as they are and there is
-- no block.
pub alloc-conserves :
    (rs : List Region) (layout : Layout)
    → AreRegions rs
    → IsAlign layout.align
    → layout.size < 2 ^ 62
    → (sz : ℕ) × (layout.size ≤ sz)
      × (sz < max 17 (layout.size + max layout.align 8))
      × AllocTo rs layout sz
alloc-conserves rs layout hrs ha hs =
    let (sz, q) = size_align-Request layout ha hs in
    (sz, q.2, q.3, alloc-AllocTo rs layout sz hrs q)

dealloc-some :
    (rs : List Region) (s : ℕ) (layout : Layout) (sz : ℕ)
    → Request layout sz
    → s % 8 ≡ 0
    → s + sz < 2 ^ 63
    → dealloc rs s layout ≡ some (record { start_addr = s; size = sz } ∷ rs)
unfolding dealloc
dealloc-some rs s layout sz (e, q, large, small) h8 hs =
    rw e (add_free_region-some s sz rs h8 q.large (omega arith))

-- What giving a block back at once comes to: every byte is as often free as before, but for the less than
-- an alignment of bytes between the start of a region and the block.
abbrev pub GivenBack : List Region → Layout → List Region → ℕ → Type 0
GivenBack rs layout rs' s =
    (back : List Region) × (region : Region) × (dealloc rs' s layout ≡ some back)
    × AreRegions back
    × IsIn region rs
    × (region.start_addr ≤ s)
    × (s < region.start_addr + max layout.align 8)
    × ((x : ℕ) → free_count back x + in_block region.start_addr s x ≡ free_count rs x)

give_back :
    (rs : List Region) (layout : Layout) (sz : ℕ) (rs' : List Region) (s : ℕ)
    → Request layout sz
    → Allocated rs sz (max layout.align 8) rs' s
    → GivenBack rs layout rs' s
give_back rs layout sz rs' s req h =
    let block : Region = record { start_addr = s; size = sz } in
    let q = req.1 in
    (
      block ∷ rs',
      h.region,
      dealloc-some rs' s layout sz req h.whole h.end_lt,
      (
        record { aligned = h.whole; whole = q.whole; large = q.large; end_lt = h.end_lt },
        h.regions,
      ),
      h.region_IsIn,
      h.start_le,
      h.start_near,
      λ x.
          let c = h.count x in
          let b = in_block-split h.region.start_addr s (s + sz) x h.start_le (omega arith) in
          omega arith,
    )

absurd_given :
    (rs : List Region) (layout : Layout) (rs' : List Region) (s : ℕ)
    → alloc rs layout ≡ some (rs, none)
    → alloc rs layout ≡ some (rs', some s)
    → GivenBack rs layout rs' s
absurd_given rs layout rs' s nothing e = cc

-- A block that was allocated from well-formed free regions, for an alignment that is a power of two below
-- 2 ^ 62 and a size below 2 ^ 62, can be given back at once, with the same layout, without a panic. Then the
-- regions are well formed, and every byte is as often free as before the allocation, but for the bytes in
-- front of the block in the region that was taken, which are fewer than the alignment, at least 8.
pub dealloc-alloc :
    (rs : List Region) (layout : Layout) (rs' : List Region) (s : ℕ)
    → AreRegions rs
    → IsAlign layout.align
    → layout.size < 2 ^ 62
    → alloc rs layout ≡ some (rs', some s)
    → GivenBack rs layout rs' s
dealloc-alloc rs layout rs' s hrs ha hs e =
    let (sz, q) = size_align-Request layout ha hs in
    elim (alloc-AllocTo rs layout sz hrs q) [
      | inl (nothing, room) ↦ absurd_given rs layout rs' s nothing e
      | inr (rs2, s2, given, done) ↦
          let regions_eq : rs2 ≡ rs' = cc in
          let start_eq : s2 ≡ s = cc in
          rw (sym regions_eq, sym start_eq) (give_back rs layout sz rs2 s2 q done)
    ]
