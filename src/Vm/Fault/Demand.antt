-- ===== src/Vm/Fault/Demand.antt =====
-- Demand paging: the first touch of a page of an anonymous area of kernel/src/vm.rs.
use kafka_os.Base.{
  ℕ, ◌+◌, ◌≤◌, ◌<◌, ◌≡◌, ◌≢◌, ◌⊎◌, ◌∙◌, refl, ap, Option, some, true, false, arith, min, not, ◌&&◌,
  if◌then◌else◌,
}
use kafka_os.Vm.Area.{VmArea, pte_flags_from_vma}
use kafka_os.Vm.AreaList.{area_at}
use kafka_os.Vm.RefCounts.{increment, get, tracked, AreApart, get-increment, get-increment_other}
use kafka_os.Vm.Paging.{Paging}
use kafka_os.Vm.Fault.{
  Kernel, PageFaultErrorCode, PageFaultResult, handle_page_fault, handle_in_area,
  containing_address, demand_allocate, map_page, zero_frame,
}
use kafka_os.Vm.Fault.Denied.{handle_page_fault-area_at}

module _ {pg : Paging} where
  open pg use {Tables, Frames, entry, allocate_frame, map_to, entry-map_to, entry-map_to_ne}

  -- A fault on a missing page of an anonymous area, by a read or by a write that the area allows.
  pub record Demand (k : Kernel pg) (addr : ℕ) (code : PageFaultErrorCode) (v : VmArea)
      : Type 0 where
    pub inside : area_at k.vma_list addr ≡ some v
    pub anonymous : v.flags.anonymous ≡ true
    pub missing : code.protection_violation ≡ false
    pub allowed : (code.caused_by_write ≡ false) ⊎ (v.prot.write ≡ true)

  Demand-handled :
      (k : Kernel pg) (addr : ℕ) (code : PageFaultErrorCode) (v : VmArea)
      → Demand k addr code v
      → handle_page_fault k addr code ≡ demand_allocate k (containing_address addr) v
  unfolding handle_in_area
  Demand-handled k addr code v d =
      let (i, f, g, h) = handle_page_fault-area_at k addr code v d.inside in rw h (ground arith)

  demand_allocate_lem :
      (k : Kernel pg) (page : ℕ) (v : VmArea) (frame : ℕ) (f1 f2 : Frames) (t : Tables)
      → allocate_frame k.frames ≡ some (frame, f1)
      → map_to k.tables f1 page frame (pte_flags_from_vma v) ≡ (some t, f2)
      → demand_allocate k page v ≡ (
        record (zero_frame k frame) { tables = t; frames = f2; refs = increment k.refs frame },
        PageFaultResult.resolved,
      )
  unfolding demand_allocate map_page zero_frame
  demand_allocate_lem k page v frame f1 f2 t e m = rw (e, demand_allocate) (rw m)

  -- A fault on a missing page of an anonymous area, by a read or where the area is writable, with a frame
  -- at hand, room in the page tables and the offset set, is resolved: the page maps to the new frame,
  -- present, open to user mode, writable where its area is and is not copy on write, and executable where
  -- its area is; every other page maps as before; the frame reads as zero, and the handler writes no byte
  -- outside it, besides those of the page tables, which stand apart; the frame has one reference more, up to
  -- 65535, where it is tracked, and every frame apart from it has as many as before; the areas stay as they
  -- are.
  pub handle_page_fault-Demand :
      (k : Kernel pg) (addr : ℕ) (code : PageFaultErrorCode) (v : VmArea) (frame : ℕ)
      (f1 f2 : Frames) (t : Tables)
      → Demand k addr code v
      → 0 < k.phys_mem_offset
      → allocate_frame k.frames ≡ some (frame, f1)
      → map_to k.tables f1 (containing_address addr) frame (pte_flags_from_vma v) ≡ (some t, f2)
      → let (k', result) = handle_page_fault k addr code in
        (result ≡ PageFaultResult.resolved)
        × (entry k'.tables (containing_address addr)
            ≡ some (
              frame,
              record {
                present = true;
                writable = v.prot.write && not v.flags.cow;
                user_accessible = true;
                no_execute = not v.prot.execute;
              },
            ))
        × ((other : ℕ)
            → other ≢ containing_address addr
            → entry k'.tables other ≡ entry k.tables other)
        × ((a : ℕ) → frame ≤ a → a < frame + 4096 → k'.memory a ≡ 0)
        × ((a : ℕ) → a < frame → k'.memory a ≡ k.memory a)
        × ((a : ℕ) → frame + 4096 ≤ a → k'.memory a ≡ k.memory a)
        × (get k'.refs frame
            ≡ (if tracked k.refs frame then min (get k.refs frame + 1) 65535 else 0))
        × ((other : ℕ) → AreApart frame other → get k'.refs other ≡ get k.refs other)
        × (k'.vma_list ≡ k.vma_list)
  unfolding zero_frame pte_flags_from_vma
  handle_page_fault-Demand k addr code v frame f1 f2 t d set_up e m =
      let done =
        Demand-handled k addr code v d
        ∙ demand_allocate_lem k (containing_address addr) v frame f1 f2 t e m in
      let mapped = ap (λ (r : Option Tables × Frames). r.0) m in
      rw done (
        refl,
        entry-map_to k.tables t f1 _ frame _ mapped,
        (λ other h. entry-map_to_ne k.tables t f1 _ frame _ other mapped h),
        (λ a lo hi. ground arith),
        (λ a lo. ground arith),
        (λ a hi. ground arith),
        get-increment k.refs frame,
        get-increment_other k.refs frame,
        refl,
      )
