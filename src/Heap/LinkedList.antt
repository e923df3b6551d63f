-- ===== src/Heap/LinkedList.antt =====
-- `LinkedListAllocator` of kernel/src/allocator/linked_list.rs. A node of the list is the region in which it
-- is written: its address and its size. `none` is a failed assertion or `expect`.
pub mod Regions
pub mod Search
pub mod Split
pub mod Conservation
use kafka_os.Base.{
  ℕ, ◌+◌, ◌-◌, ◌*◌, ◌/◌, ◌^◌, max, Bool, true, false, ◌&&◌, Option, none, some, List, [], ◌∷◌, ltb,
  leb, ◌==◌, if◌then◌else◌, ◌>>=◌,
}
use kafka_os.Heap.{Layout, align_up, checked_add}

-- The size and the alignment of `ListNode`: two words.
abbrev pub node_size : ℕ
node_size = 16

abbrev pub node_align : ℕ
node_align = 8

pub record Region : Type 0 where
  pub start_addr : ℕ
  pub size : ℕ

abbrev pub end_addr : Region → ℕ
end_addr r = r.start_addr + r.size

unfoldable pub add_free_region : ℕ → ℕ → List Region → Option (List Region)
unfolding align_up
add_free_region addr size regions =
    if align_up addr node_align == addr && leb node_size size
    then some (record { start_addr = addr; size = size } ∷ regions)
    else none

unfoldable pub init : List Region → ℕ → ℕ → Option (List Region)
init regions heap_start heap_size = add_free_region heap_start heap_size regions

-- An end beyond the region or an excess too small for a node is refused.
abbrev fits_region : Region → ℕ → Option ℕ → Option ℕ
fits_region region alloc_start none = none
fits_region region alloc_start (some alloc_end) =
    if ltb (end_addr region) alloc_end
    then none
    else if ltb 0 (end_addr region - alloc_end) && ltb (end_addr region - alloc_end) node_size
    then none
    else some alloc_start

unfoldable pub alloc_from_region : Region → ℕ → ℕ → Option ℕ
unfolding checked_add
alloc_from_region region size align =
    let alloc_start = align_up region.start_addr align in
    fits_region region alloc_start (checked_add alloc_start size)

-- What the search takes out: the region, the start in it, and the list without the region.
pub record Found : Type 0 where
  pub region : Region
  pub alloc_start : ℕ
  pub rest : List Region

abbrev found_or : Region → List Region → Option ℕ → Option Found → Option Found
found_or region next (some alloc_start) later =
    some (record { region = region; alloc_start = alloc_start; rest = next })
found_or region next none none = none
found_or region next none (some f) = some (record f { rest = region ∷ f.rest })

unfoldable pub find_region : List Region → ℕ → ℕ → Option Found
find_region [] size align = none
find_region (region ∷ next) size align =
    found_or region next (alloc_from_region region size align) (find_region next size align)

-- `align_to` and `pad_to_align` of a layout: the size is rounded up to the alignment, and a layout that
-- would be larger than `isize::MAX` is an error.
unfoldable pub size_align : Layout → Option (ℕ × ℕ)
size_align layout =
    let align = max layout.align node_align in
    let padded = (layout.size + align - 1) / align * align in
    if ltb padded (2 ^ 63) then some (max padded node_size, align) else none

-- The rest of the region behind the block goes back to the list.
unfoldable pub split_region : Found → ℕ → Option (List Region × Option ℕ)
split_region f size = do
  alloc_end ← checked_add f.alloc_start size
  let excess_size = end_addr f.region - alloc_end
  regions ← if ltb 0 excess_size then add_free_region alloc_end excess_size f.rest else some f.rest
  some (regions, some f.alloc_start)

abbrev alloc_found : List Region → ℕ → Option Found → Option (List Region × Option ℕ)
alloc_found regions size none = some (regions, none)
alloc_found regions size (some f) = split_region f size

unfoldable pub alloc : List Region → Layout → Option (List Region × Option ℕ)
alloc regions layout = do
  sa ← size_align layout
  alloc_found regions sa.0 (find_region regions sa.0 sa.1)

unfoldable pub dealloc : List Region → ℕ → Layout → Option (List Region)
dealloc regions ptr layout = do sa ← size_align layout; add_free_region ptr sa.0 regions
