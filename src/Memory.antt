-- ===== src/Memory.antt =====
-- The physical frames that the bootloader leaves: `BootInfoFrameAllocator` of kernel/src/memory.rs. A frame is
-- its address; a region of the memory map is what the `bootloader_api` crate gives of it.
pub mod Pages
pub mod Frames
mod Tests
use kafka_os.Base.{
  ℕ, zero, suc, ◌+◌, ◌-◌, ◌*◌, ◌/◌, ◌%◌, ◌^◌, ltb, Bool, true, false, ◌&&◌, Option, none, some,
  List, [], ◌∷◌, leb, if◌then◌else◌, length, get_elem?, u64_mod, add64,
}

pub record MemoryRegion : Type 0 where
  pub start : ℕ
  pub end_addr : ℕ
  pub usable : Bool

pub record BootInfoFrameAllocator : Type 0 where
  pub memory_map : List MemoryRegion
  pub region_idx : ℕ
  pub next_addr : ℕ

-- `(start + 0xfff) & !0xfff`.
unfoldable pub page_up : ℕ → ℕ
page_up start = (start + 4095) % u64_mod / 4096 * 4096

abbrev seek_at : BootInfoFrameAllocator → Option MemoryRegion → BootInfoFrameAllocator
seek_at a none = a
seek_at a (some region) = record a { next_addr = page_up region.start }

unfoldable pub seek_region_start : BootInfoFrameAllocator → BootInfoFrameAllocator
seek_region_start a = seek_at a (get_elem? a.memory_map a.region_idx)

unfoldable pub init : List MemoryRegion → BootInfoFrameAllocator
init memory_map =
    seek_region_start (record { memory_map = memory_map; region_idx = 0; next_addr = 0 })

abbrev next_region : BootInfoFrameAllocator → BootInfoFrameAllocator
next_region a = seek_region_start (record a { region_idx = a.region_idx + 1 })

-- `PhysAddr::new` of the `x86_64` crate panics for an address of more than 52 bits.
abbrev phys_addr : ℕ → Option ℕ
phys_addr addr = if ltb addr (2 ^ 52) then some addr else none

-- The frame at an address, after which the allocator stands behind it.
abbrev give_frame : BootInfoFrameAllocator → Option ℕ → Option (BootInfoFrameAllocator × Option ℕ)
give_frame a none = none
give_frame a (some addr) = some (record a { next_addr = add64 a.next_addr 4096 }, some addr)

abbrev try_region :
    BootInfoFrameAllocator
    → Option (BootInfoFrameAllocator × Option ℕ)
    → Option MemoryRegion
    → Option (BootInfoFrameAllocator × Option ℕ)
try_region a later none = some (a, none)
try_region a later (some region) =
    if region.usable && leb (add64 a.next_addr 4096) region.end_addr
    then give_frame a (phys_addr a.next_addr)
    else later

-- The loop over the regions that are left, at most `fuel` rounds of it. `none` is a panic.
unfoldable pub search_regions :
    ℕ → BootInfoFrameAllocator → Option (BootInfoFrameAllocator × Option ℕ)
search_regions zero a = none
search_regions (suc fuel) a =
    try_region a (search_regions fuel (next_region a)) (get_elem? a.memory_map a.region_idx)

-- Every round but the last moves on to the next region.
unfoldable pub allocate_frame : BootInfoFrameAllocator → Option (BootInfoFrameAllocator × Option ℕ)
allocate_frame a = search_regions (suc (length a.memory_map - a.region_idx)) a
