-- ===== src/Memory/Pages.antt =====
-- The pages of a region of kernel/src/memory.rs.
use kafka_os.Base.{
  ℕ, zero, suc, ◌+◌, ◌-◌, ◌/◌, ◌^◌, ◌≤◌, ◌<◌, ◌≡◌, inl, inr, refl, true, false, ◌&&◌, List, [], ◌∷◌,
  ◌++◌, leb, if◌then◌else◌, add64, arith, Bool-cases,
}
use kafka_os.Memory.{MemoryRegion, page_up}

-- So many pages, from an address on.
unfoldable pub pages : ℕ → ℕ → List ℕ
pages addr zero = []
pages addr (suc n) = addr ∷ pages (addr + 4096) n

-- The whole pages of a usable region behind an address, and those of the regions of a map.
abbrev pub frames_from : ℕ → MemoryRegion → List ℕ
frames_from addr region = if region.usable then pages addr ((region.end_addr - addr) / 4096) else []

abbrev pub frames_of : List MemoryRegion → List ℕ
frames_of [] = []
frames_of (region ∷ regions) = frames_from (page_up region.start) region ++ frames_of regions

pub pages-step :
    (addr end : ℕ)
    → addr + 4096 ≤ end
    → pages addr ((end - addr) / 4096) ≡ addr ∷ pages (addr + 4096) ((end - (addr + 4096)) / 4096)
unfolding pages
pages-step addr end h =
    let e : (end - addr) / 4096 ≡ suc ((end - (addr + 4096)) / 4096) = omega arith in rw e refl

pub pages-none : (addr end : ℕ) → end < addr + 4096 → pages addr ((end - addr) / 4096) ≡ []
unfolding pages
pages-none addr end h = let e : (end - addr) / 4096 ≡ 0 = omega arith in rw e refl

pub add64-lt : (a : ℕ) → a < 2 ^ 63 + 4096 → add64 a 4096 ≡ a + 4096
add64-lt a h = omega arith

-- A region that is not usable, or has no whole page left, gives nothing.
pub no_frame :
    (addr : ℕ) (region : MemoryRegion)
    → (region.usable && leb (addr + 4096) region.end_addr) ≡ false
    → frames_from addr region ≡ []
no_frame addr region e = elim (Bool-cases region.usable) [
  | inl u ↦ rw u (pages-none addr region.end_addr (ground arith))
  | inr u ↦ rw u refl
]

pub some_frame :
    (addr : ℕ) (region : MemoryRegion)
    → (region.usable && leb (addr + 4096) region.end_addr) ≡ true
    → frames_from addr region ≡ addr ∷ frames_from (addr + 4096) region
some_frame addr region e =
    let u : region.usable ≡ true = ground arith in
    let room : addr + 4096 ≤ region.end_addr = ground arith in
    rw (u, pages-step addr region.end_addr room) refl
