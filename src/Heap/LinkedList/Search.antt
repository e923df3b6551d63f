-- ===== src/Heap/LinkedList/Search.antt =====
-- The search of kernel/src/allocator/linked_list.rs: where the block that it finds stands.
use kafka_os.Base.{
  ℕ, ◌+◌, ◌%◌, ◌^◌, ◌≤◌, ◌<◌, ◌≡◌, ◌⊎◌, inl, inr, sym, refl, Option, none, some, List, [], ◌∷◌,
  arith,
}
use kafka_os.Heap.{align_up, checked_add}
use kafka_os.Heap.LinkedList.{
  Region, end_addr, alloc_from_region, fits_region, Found, found_or, find_region,
}
use kafka_os.Heap.LinkedList.Regions.{
  IsRegion, AreRegions, in_block, free_count, IsRequest, Fits, IsIn, NoRoom, same_multiple,
  align_up_bounds, align_up-mod, align_up-eight,
}

fits_region-bounds :
    (r : Region) (sz s t : ℕ)
    → fits_region r t (checked_add t sz) ≡ some s
    → (s ≡ t) × (t + sz ≤ end_addr r) × ((end_addr r ≡ t + sz) ⊎ (t + sz + 16 ≤ end_addr r))
unfolding checked_add
fits_region-bounds r sz s t e = ground arith

IsRequest-pos : {sz a : ℕ} → IsRequest sz a → 0 < a
IsRequest-pos {sz} {a} q = let e = q.align_eq in let h = q.words_pos in omega arith

IsRegion-lt : {r : Region} → IsRegion r → r.start_addr < 2 ^ 63
IsRegion-lt {r} h = let e = h.end_lt in omega arith

alloc_from_region-Fits :
    (r : Region) (sz a s : ℕ)
    → IsRegion r
    → IsRequest sz a
    → alloc_from_region r sz a ≡ some s
    → Fits r sz a s
unfolding alloc_from_region
alloc_from_region-Fits r sz a s hr hq e =
    let t = align_up r.start_addr a in
    let (low, high) =
      align_up_bounds r.start_addr a (IsRequest-pos hq) (IsRegion-lt hr) hq.align_lt in
    let whole : t % 8 ≡ 0 = rw (hq.align_eq) (align_up-eight r.start_addr hq.words) in
    let (same, fit_end, gap) = fits_region-bounds r sz s t e in
    rw same (record {
      start_le = low;
      start_near = high;
      aligned = align_up-mod r.start_addr a;
      whole = whole;
      end_le = fit_end;
      excess = gap;
    })

pub record IsFound (rs : List Region) (sz a : ℕ) (f : Found) : Type 0 where
  pub region_IsRegion : IsRegion f.region
  pub region_IsIn : IsIn f.region rs
  pub fits : Fits f.region sz a f.alloc_start
  pub rest_AreRegions : AreRegions f.rest
  pub count :
      (x : ℕ)
      → free_count rs x ≡ in_block f.region.start_addr (end_addr f.region) x + free_count f.rest x

found_or-IsFound :
    (r : Region) (rs : List Region) (sz a : ℕ) (here : Option ℕ) (later : Option Found) (f : Found)
    → IsRegion r
    → AreRegions rs
    → ((s : ℕ) → here ≡ some s → Fits r sz a s)
    → ((g : Found) → later ≡ some g → IsFound rs sz a g)
    → found_or r rs here later ≡ some f
    → IsFound (r ∷ rs) sz a f
found_or-IsFound r rs sz a (some s) later f hr hrs fit ih e =
    let same : record { region = r; alloc_start = s; rest = rs } ≡ f = cc in
    rw (sym same) (record {
      region_IsRegion = hr;
      region_IsIn = inl refl;
      fits = fit s refl;
      rest_AreRegions = hrs;
      count = λ x. refl;
    })
found_or-IsFound r rs sz a none (some g) f hr hrs fit ih e =
    let h = ih g refl in
    let same : record g { rest = r ∷ g.rest } ≡ f = cc in
    rw (sym same) (record {
      region_IsRegion = h.region_IsRegion;
      region_IsIn = inr h.region_IsIn;
      fits = h.fits;
      rest_AreRegions = (hr, h.rest_AreRegions);
      count = λ x. let c = h.count x in omega arith;
    })
found_or-IsFound r rs sz a none none f hr hrs fit ih e = cc

pub find_region-IsFound :
    (rs : List Region) (sz a : ℕ) (f : Found)
    → AreRegions rs
    → IsRequest sz a
    → find_region rs sz a ≡ some f
    → IsFound rs sz a f
unfolding find_region
find_region-IsFound [] sz a f hrs hq e = cc
find_region-IsFound (r ∷ rs) sz a f (hr, hrs) hq e =
    found_or-IsFound r rs sz a (alloc_from_region r sz a) (find_region rs sz a) f hr hrs
      (λ s. alloc_from_region-Fits r sz a s hr hq) (λ g. find_region-IsFound rs sz a g hrs hq) e

fits_region-none :
    (r : Region) (sz t : ℕ)
    → t + sz < 2 ^ 64
    → fits_region r t (checked_add t sz) ≡ none
    → t + sz ≤ end_addr r
    → (end_addr r ≡ t + sz) ⊎ (t + sz + 16 ≤ end_addr r)
    → ⊥
unfolding checked_add
fits_region-none r sz t lt e h g = ground arith

alloc_from_region-none :
    (r : Region) (sz a s : ℕ)
    → IsRegion r
    → IsRequest sz a
    → alloc_from_region r sz a ≡ none
    → ¬ Fits r sz a s
unfolding alloc_from_region
alloc_from_region-none r sz a s hr hq e f =
    let t = align_up r.start_addr a in
    let (low, high) =
      align_up_bounds r.start_addr a (IsRequest-pos hq) (IsRegion-lt hr) hq.align_lt in
    let same : s ≡ t =
      same_multiple s t r.start_addr a (IsRequest-pos hq) f.aligned (align_up-mod r.start_addr a)
        f.start_le f.start_near low high in
    let end_le = f.end_le in
    let size_lt = hq.size_lt in
    let end_lt = hr.end_lt in
    fits_region-none r sz t (omega arith) e (rw (sym same) end_le) (rw (sym same) (f.excess))

found_or-none :
    (r : Region) (rs : List Region) (here : Option ℕ) (later : Option Found)
    → found_or r rs here later ≡ none
    → (here ≡ none) × (later ≡ none)
found_or-none r rs (some s) later e = cc
found_or-none r rs none (some g) e = cc
found_or-none r rs none none e = (refl, refl)

pub find_region-NoRoom :
    (rs : List Region) (sz a : ℕ)
    → AreRegions rs
    → IsRequest sz a
    → find_region rs sz a ≡ none
    → NoRoom sz a rs
unfolding find_region
find_region-NoRoom [] sz a hrs hq e = tt
find_region-NoRoom (r ∷ rs) sz a (hr, hrs) hq e =
    let (here, later) = found_or-none r rs (alloc_from_region r sz a) (find_region rs sz a) e in
    (λ s f. alloc_from_region-none r sz a s hr hq here f, find_region-NoRoom rs sz a hrs hq later)
