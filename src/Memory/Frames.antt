-- ===== src/Memory/Frames.antt =====
-- Which frames kernel/src/memory.rs gives, and in which order.
pub mod Order
use kafka_os.Base.{
  ℕ, zero, suc, ◌+◌, ◌-◌, ◌*◌, ◌/◌, ◌%◌, ◌^◌, ◌≤◌, ◌<◌, ◌≡◌, ◌>>=◌, ltb, ◌∙◌, ◌⊎◌, inl, inr, refl,
  sym, ap, Bool, true, false, ◌&&◌, Option, none, some, List, [], ◌∷◌, ◌++◌, leb, if◌then◌else◌,
  length, get_elem?, drop, drop_all, u64_mod, add64, arith, Bool-cases, Option-cases, dec_le,
}
use kafka_os.Memory.{
  MemoryRegion, BootInfoFrameAllocator, page_up, seek_region_start, next_region, try_region,
  search_regions, init, allocate_frame,
}
use kafka_os.Memory.Pages.{
  pages, frames_from, frames_of, pages-step, pages-none, add64-lt, no_frame, some_frame,
}

abbrev frames_at : ℕ → List MemoryRegion → List ℕ
frames_at addr [] = []
frames_at addr (region ∷ regions) = frames_from addr region ++ frames_of regions

-- What an allocator has still to give.
abbrev pub remaining : BootInfoFrameAllocator → List ℕ
remaining a = frames_at a.next_addr (drop a.region_idx a.memory_map)

-- Addresses of at most 52 bits are neither wrapped nor refused.
abbrev pub AreLow : List MemoryRegion → Type 0
AreLow [] = Unit {0}
AreLow (region ∷ regions) = (region.start < 2 ^ 52) × (region.end_addr ≤ 2 ^ 52) × AreLow regions

module _ {ℓ} {A : Type ℓ} where
  drop-get_elem? :
      (xs : List A) (i : ℕ) (x : A) → get_elem? xs i ≡ some x → drop i xs ≡ x ∷ drop (i + 1) xs
  drop-get_elem? [] i x e = cc
  drop-get_elem? (y ∷ ys) zero x e = let head : y ≡ x = cc in ap (λ (z : A). z ∷ ys) head
  drop-get_elem? (y ∷ ys) (suc i) x e =
      let next : suc i + 1 ≡ suc (i + 1) = omega arith in
      drop-get_elem? ys i x e ∙ ap (λ (j : ℕ). x ∷ drop j (y ∷ ys)) (sym next)

  get_elem?_inside : (xs : List A) (i : ℕ) (x : A) → get_elem? xs i ≡ some x → i < length xs
  get_elem?_inside [] i x e = cc
  get_elem?_inside (y ∷ ys) zero x e = omega arith
  get_elem?_inside (y ∷ ys) (suc i) x e = omega (arith, get_elem?_inside ys i x e)

  drop_past : (xs : List A) (i : ℕ) → get_elem? xs i ≡ none → drop i xs ≡ []
  drop_past [] zero e = refl
  drop_past [] (suc i) e = refl
  drop_past (y ∷ ys) zero e = cc
  drop_past (y ∷ ys) (suc i) e = drop_past ys i e

-- A frame is the first of a list, and the allocator still has the others.
abbrev pub Gives : List ℕ → BootInfoFrameAllocator × Option ℕ → Type 0
Gives [] p = (p.1 ≡ none) × (remaining p.0 ≡ [])
Gives (frame ∷ frames) p = (p.1 ≡ some frame) × (remaining p.0 ≡ frames)

pub record IsAllocator (a : BootInfoFrameAllocator) : Type 0 where
  pub low : AreLow a.memory_map
  pub next_lt : a.next_addr < 2 ^ 52 + 4096

AreLow-get_elem? :
    (regions : List MemoryRegion) (i : ℕ) (region : MemoryRegion)
    → AreLow regions
    → get_elem? regions i ≡ some region
    → (region.start < 2 ^ 52) × (region.end_addr ≤ 2 ^ 52)
AreLow-get_elem? [] i region h e = cc
AreLow-get_elem? (r ∷ regions) zero region (hs, he, h) e =
    let same : r ≡ region = cc in rw (sym same) (hs, he)
AreLow-get_elem? (r ∷ regions) (suc i) region (hs, he, h) e = AreLow-get_elem? regions i region h e

page_up-lt : (start : ℕ) → start < 2 ^ 52 → page_up start < 2 ^ 52 + 4096
unfolding page_up
page_up-lt start h = omega arith

-- Seeking a region turns to all of its pages.
seek-remaining :
    (a : BootInfoFrameAllocator)
    → remaining (seek_region_start a) ≡ frames_of (drop a.region_idx a.memory_map)
unfolding seek_region_start
seek-remaining a = elim (Option-cases (get_elem? a.memory_map a.region_idx)) [
  | inl past ↦ rw (past, drop_past a.memory_map a.region_idx past) refl
  | inr (region, there) ↦ rw (there, drop-get_elem? a.memory_map a.region_idx region there) refl
]

seek-IsAllocator : (a : BootInfoFrameAllocator) → IsAllocator a → IsAllocator (seek_region_start a)
unfolding seek_region_start
seek-IsAllocator a h = elim (Option-cases (get_elem? a.memory_map a.region_idx)) [
  | inl past ↦ rw past h
  | inr (region, there) ↦
      let (start_lt, end_lt) = AreLow-get_elem? a.memory_map a.region_idx region h.low there in
      rw there (record { low = h.low; next_lt = page_up-lt region.start start_lt })
]

-- What a search keeps.
abbrev pub Searched : BootInfoFrameAllocator → Option (BootInfoFrameAllocator × Option ℕ) → Type 0
Searched a none = ⊥
Searched a (some p) = Gives (remaining a) p × IsAllocator p.0

Gives-eq : {l k : List ℕ} (p : BootInfoFrameAllocator × Option ℕ) → l ≡ k → Gives k p → Gives l p
Gives-eq p e h = rw e h

seek-same :
    (a : BootInfoFrameAllocator)
    → ((seek_region_start a).memory_map ≡ a.memory_map)
      × ((seek_region_start a).region_idx ≡ a.region_idx)
unfolding seek_region_start
seek-same a = elim (Option-cases (get_elem? a.memory_map a.region_idx)) [
  | inl past ↦ rw past (refl, refl)
  | inr (region, there) ↦ rw there (refl, refl)
]

-- What follows where the search goes on with the regions behind.
skip-Searched :
    (a later : BootInfoFrameAllocator) (o : Option (BootInfoFrameAllocator × Option ℕ))
    → remaining a ≡ remaining later
    → Searched later o
    → Searched a o
skip-Searched a later none e h = h
skip-Searched a later (some p) e (given, kept) = (Gives-eq p e given, kept)

-- The round at a region that is there.
region-Searched :
    (a : BootInfoFrameAllocator) (region : MemoryRegion)
    (later : Option (BootInfoFrameAllocator × Option ℕ))
    → get_elem? a.memory_map a.region_idx ≡ some region
    → IsAllocator a
    → Searched (next_region a) later
    → Searched a (try_region a later (some region))
region-Searched a region later there h hl =
    let here = drop-get_elem? a.memory_map a.region_idx region there in
    let (start_lt, end_le) = AreLow-get_elem? a.memory_map a.region_idx region h.low there in
    let others = frames_of (drop (a.region_idx + 1) a.memory_map) in
    let all : remaining a ≡ frames_from a.next_addr region ++ others =
      ap (frames_at a.next_addr) here in
    let next_lt = h.next_lt in
    rw (add64-lt a.next_addr (omega arith))
      (elim (Bool-cases (region.usable && leb (a.next_addr + 4096) region.end_addr)) [
        | inl e ↦
            let first : remaining a
                ≡ a.next_addr ∷ (frames_from (a.next_addr + 4096) region ++ others) =
              all ∙ ap (λ (l : List ℕ). l ++ others) (some_frame a.next_addr region e) in
            let rest : remaining (record a { next_addr = a.next_addr + 4096 })
                ≡ frames_from (a.next_addr + 4096) region ++ others =
              ap (frames_at (a.next_addr + 4096)) here in
            let small : ltb a.next_addr (2 ^ 52) ≡ true = ground arith in
            rw (e, small, add64-lt a.next_addr (omega arith))
              (
                Gives-eq (record a { next_addr = a.next_addr + 4096 }, some a.next_addr) first
                    (refl, rest),
                record { low = h.low; next_lt = ground arith },
              )
        | inr e ↦
            let skipped : remaining a ≡ others =
              all ∙ ap (λ (l : List ℕ). l ++ others) (no_frame a.next_addr region e) in
            let moved : BootInfoFrameAllocator = record a { region_idx = a.region_idx + 1 } in
            rw e (skip-Searched a (next_region a) later (skipped ∙ sym (seek-remaining moved)) hl)
      ])

search_regions-Searched :
    (fuel : ℕ) (a : BootInfoFrameAllocator)
    → length a.memory_map < fuel + a.region_idx
    → 0 < fuel
    → IsAllocator a
    → Searched a (search_regions fuel a)
unfolding search_regions
search_regions-Searched zero a hf pos h = absurd (omega arith)
search_regions-Searched (suc fuel) a hf pos h =
    elim (Option-cases (get_elem? a.memory_map a.region_idx)) [
      | inl past ↦
          let nothing : remaining a ≡ [] =
            ap (frames_at a.next_addr) (drop_past a.memory_map a.region_idx past) in
          rw past (Gives-eq (a, none) nothing (refl, nothing), h)
      | inr (region, there) ↦
          let moved : BootInfoFrameAllocator = record a { region_idx = a.region_idx + 1 } in
          let valid = seek-IsAllocator moved (record { low = h.low; next_lt = h.next_lt }) in
          let (same_map, same_idx) = seek-same moved in
          let inside = get_elem?_inside a.memory_map a.region_idx region there in
          rw there (
            region-Searched a region (search_regions fuel (next_region a)) there h (
              search_regions-Searched fuel (seek_region_start moved)
                (rw (same_map, same_idx) (omega arith)) (omega arith) valid))
    ]

allocate_frame-Searched :
    (a : BootInfoFrameAllocator) → IsAllocator a → Searched a (allocate_frame a)
unfolding allocate_frame
allocate_frame-Searched a h =
    search_regions-Searched (suc (length a.memory_map - a.region_idx)) a (omega arith) (omega arith)
      h

-- The results of so many calls, or none where a call panics.
unfoldable pub allocate_frames : ℕ → BootInfoFrameAllocator → Option (List (Option ℕ))
allocate_frames zero a = some []
allocate_frames (suc n) a = do
  p ← allocate_frame a
  results ← allocate_frames n p.0
  some (p.1 ∷ results)

-- The first elements of a list, and nothing behind its end.
unfoldable pub first_results : ℕ → List ℕ → List (Option ℕ)
first_results zero frames = []
first_results (suc n) [] = none ∷ first_results n []
first_results (suc n) (frame ∷ frames) = some frame ∷ first_results n frames

Searched-some :
    (a : BootInfoFrameAllocator) (o : Option (BootInfoFrameAllocator × Option ℕ))
    → Searched a o
    → (p : BootInfoFrameAllocator × Option ℕ) × (o ≡ some p)
      × Gives (remaining a) p
      × IsAllocator p.0
Searched-some a none h = absurd h
Searched-some a (some p) (given, kept) = (p, refl, given, kept)

frames-first :
    (n : ℕ) (a : BootInfoFrameAllocator) (l : List ℕ)
    → remaining a ≡ l
    → IsAllocator a
    → allocate_frames n a ≡ some (first_results n l)
unfolding allocate_frames first_results
frames-first zero a l e h = refl
frames-first (suc n) a [] e h =
    let (p, found, given, kept) =
      Searched-some a (allocate_frame a) (allocate_frame-Searched a h) in
    let (none_eq, rest) = Gives-eq p (sym e) given in
    rw (found, ◌>>=◌) (rw (frames-first n p.0 [] rest kept, ◌>>=◌, none_eq) refl)
frames-first (suc n) a (frame ∷ frames) e h =
    let (p, found, given, kept) =
      Searched-some a (allocate_frame a) (allocate_frame-Searched a h) in
    let (some_eq, rest) = Gives-eq p (sym e) given in
    rw (found, ◌>>=◌) (rw (frames-first n p.0 frames rest kept, ◌>>=◌, some_eq) refl)

init-remaining : (regions : List MemoryRegion) → remaining (init regions) ≡ frames_of regions
unfolding init
init-remaining regions =
    seek-remaining (record { memory_map = regions; region_idx = 0; next_addr = 0 })

init-IsAllocator : (regions : List MemoryRegion) → AreLow regions → IsAllocator (init regions)
unfolding init
init-IsAllocator regions h =
    seek-IsAllocator (record { memory_map = regions; region_idx = 0; next_addr = 0 })
      (record { low = h; next_lt = omega arith })

pub allocate_frames-init :
    (n : ℕ) (regions : List MemoryRegion)
    → AreLow regions
    → allocate_frames n (init regions) ≡ some (first_results n (frames_of regions))
allocate_frames-init n regions h =
    frames-first n (init regions) (frames_of regions) (init-remaining regions)
      (init-IsAllocator regions h)
