-- ===== src/Heap/LinkedList/Split.antt =====
-- What kernel/src/allocator/linked_list.rs does with the region that its search found.
use kafka_os.Base.{
  ℕ, ◌+◌, ◌-◌, ◌%◌, ◌^◌, ◌≤◌, ◌<◌, ◌≡◌, ap, inl, inr, refl, true, false, some, List, ◌∷◌, ltb, ◌==◌,
  arith,
}
use kafka_os.Heap.{align_up, checked_add}
use kafka_os.Heap.LinkedList.{Region, end_addr, add_free_region, Found, split_region}
use kafka_os.Heap.LinkedList.Regions.{AreRegions, in_block, free_count, IsRequest, IsIn}
use kafka_os.Heap.LinkedList.Search.{IsFound}

align_up_self : (x : ℕ) → x % 8 ≡ 0 → x < 2 ^ 63 → (align_up x 8 == x) ≡ true
unfolding align_up
align_up_self x h8 hx = ground arith

pub add_free_region-some :
    (addr size : ℕ) (rs : List Region)
    → addr % 8 ≡ 0
    → 16 ≤ size
    → addr < 2 ^ 63
    → add_free_region addr size rs ≡ some (record { start_addr = addr; size = size } ∷ rs)
unfolding add_free_region
add_free_region-some addr size rs h8 hs hx = rw (align_up_self addr h8 hx) (ground arith)

-- What became of the regions when the block of `sz` bytes at `s` was given out: a region of theirs was
-- taken, the block stands at the first multiple of the alignment in it, and the bytes from the start of the
-- region to the end of the block are free no longer.
pub record Allocated (rs : List Region) (sz a : ℕ) (rs' : List Region) (s : ℕ) : Type 0 where
  pub region : Region
  pub region_IsIn : IsIn region rs
  pub start_le : region.start_addr ≤ s
  pub start_near : s < region.start_addr + a
  pub aligned : s % a ≡ 0
  pub whole : s % 8 ≡ 0
  pub end_lt : s + sz < 2 ^ 63
  pub regions : AreRegions rs'
  pub count : (x : ℕ) → free_count rs' x + in_block region.start_addr (s + sz) x ≡ free_count rs x

pub in_block-split :
    (a b c x : ℕ) → a ≤ b → b ≤ c → in_block a c x ≡ in_block a b x + in_block b c x
in_block-split a b c x h k = ground arith

whole-minus : (a b c d : ℕ) → (a + b) % 8 ≡ 0 → a + b ≡ c → d % 8 ≡ 0 → d ≤ c → (c - d) % 8 ≡ 0
whole-minus a b c d h e k l = omega arith

checked_add-some : (s sz : ℕ) → s + sz < 2 ^ 63 → checked_add s sz ≡ some (s + sz)
unfolding checked_add
checked_add-some s sz h = ground arith

abbrev pub SplitTo : List Region → ℕ → ℕ → Found → Type 0
SplitTo rs sz a f =
    (rs' : List Region) × (split_region f sz ≡ some (rs', some f.alloc_start))
    × Allocated rs sz a rs' f.alloc_start

whole_split :
    (rs : List Region) (sz a : ℕ) (f : Found)
    → IsFound rs sz a f
    → f.alloc_start + sz < 2 ^ 63
    → end_addr f.region ≡ f.alloc_start + sz
    → SplitTo rs sz a f
unfolding split_region
whole_split rs sz a f h hs e =
    let nothing : ltb 0 (end_addr f.region - (f.alloc_start + sz)) ≡ false = ground arith in
    (
      f.rest,
      rw (checked_add-some f.alloc_start sz hs, nothing) refl,
      record {
        region = f.region;
        region_IsIn = h.region_IsIn;
        start_near = h.fits.start_near;
        start_le = h.fits.start_le;
        aligned = h.fits.aligned;
        whole = h.fits.whole;
        end_lt = hs;
        regions = h.rest_AreRegions;
        count = λ x.
            let c = h.count x in
            let b : in_block f.region.start_addr (end_addr f.region) x
                ≡ in_block f.region.start_addr (f.alloc_start + sz) x =
              ap (λ (n : ℕ). in_block f.region.start_addr n x) e in
            omega arith;
      },
    )

behind_split :
    (rs : List Region) (sz a : ℕ) (f : Found)
    → IsFound rs sz a f
    → IsRequest sz a
    → f.alloc_start + sz < 2 ^ 63
    → f.alloc_start + sz + 16 ≤ end_addr f.region
    → SplitTo rs sz a f
unfolding split_region
behind_split rs sz a f h hq hs e =
    let last = f.alloc_start + sz in
    let size = end_addr f.region - last in
    let something : ltb 0 size ≡ true = ground arith in
    let large : 16 ≤ size = omega arith in
    let whole_last : last % 8 ≡ 0 = let p = h.fits.whole in let q = hq.whole in omega arith in
    let whole : size % 8 ≡ 0 =
      let p = h.region_IsRegion.aligned in let q = h.region_IsRegion.whole in omega arith in
    let end_lt : last + size < 2 ^ 63 = let p = h.region_IsRegion.end_lt in omega arith in
    let behind : Region = record { start_addr = last; size = size } in
    (
      behind ∷ f.rest,
      rw
          (
            checked_add-some f.alloc_start sz hs,
            something,
            add_free_region-some last size f.rest whole_last large hs,
          )
          refl,
      record {
        region = f.region;
        region_IsIn = h.region_IsIn;
        start_near = h.fits.start_near;
        start_le = h.fits.start_le;
        aligned = h.fits.aligned;
        whole = h.fits.whole;
        end_lt = hs;
        regions = (
          record { aligned = whole_last; whole = whole; large = large; end_lt = end_lt },
          h.rest_AreRegions,
        );
        count = λ x.
            let c = h.count x in
            let low = h.fits.start_le in
            let b =
              in_block-split f.region.start_addr last (end_addr f.region) x (omega arith)
                (omega arith) in
            let e2 : last + size ≡ end_addr f.region = omega arith in
            let b2 : in_block last (last + size) x ≡ in_block last (end_addr f.region) x =
              ap (λ (n : ℕ). in_block last n x) e2 in
            omega arith;
      },
    )

pub split_region-SplitTo :
    (rs : List Region) (sz a : ℕ) (f : Found)
    → IsFound rs sz a f
    → IsRequest sz a
    → SplitTo rs sz a f
split_region-SplitTo rs sz a f h hq =
    let p = h.region_IsRegion.end_lt in
    let q = h.fits.end_le in
    let hs : f.alloc_start + sz < 2 ^ 63 = omega arith in
    elim h.fits.excess [
      | inl e ↦ whole_split rs sz a f h hs e
      | inr e ↦ behind_split rs sz a f h hq hs e
    ]
