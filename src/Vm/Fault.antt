-- ===== src/Vm/Fault.antt =====
-- The page fault handler of kernel/src/vm.rs: demand paging and copy on write. Physical memory is a
-- function from addresses to bytes; log lines are left out.
pub mod Denied
pub mod Demand
pub mod Cow
use kafka_os.Base.{
  ℕ, zero, ◌+◌, ◌-◌, ◌%◌, ◌≡◌, Option, none, some, Bool, true, false, ◌&&◌, not, List, [], ◌∷◌, ltb,
  leb, ◌==◌, if◌then◌else◌, set, get_elem?,
}
use mathlib.Core.Option
use kafka_os.Vm.Area.{VmArea, VmFlags, PageTableFlags, find_vma, pte_flags_from_vma}
use kafka_os.Vm.RefCounts.{FrameRefCounts, increment, decrement, get}
use kafka_os.Vm.Paging.{Paging}

pub data PageFaultResult : Type 0 where
  resolved segmentation_fault no_vma_list : PageFaultResult

-- The bits of the error code that the handler reads.
pub record PageFaultErrorCode : Type 0 where
  pub caused_by_write : Bool
  pub protection_violation : Bool
  pub user_mode : Bool

-- `Page::containing_address`
abbrev pub containing_address : ℕ → ℕ
containing_address addr = addr - addr % 4096

module _ (pg : Paging) where
  open pg use {Tables, Frames, entry, allocate_frame, unmap, map_to}

  -- All that the handler reads and writes.
  pub record Kernel : Type 0 where
    pub vma_list : List VmArea
    pub tables : Tables
    pub frames : Frames
    pub refs : FrameRefCounts
    pub memory : ℕ → ℕ
    pub phys_mem_offset : ℕ

abbrev in_frame : ℕ → ℕ → Bool
in_frame frame a = leb frame a && ltb a (frame + 4096)

abbrev pub writable : PageTableFlags → PageTableFlags
writable flags = record flags { writable = true }

abbrev pub remove_cow : VmArea → VmArea
remove_cow vma = record vma { flags = record (vma.flags) { cow = false } }

abbrev pub indexed : List VmArea → Option ℕ → Option (ℕ × VmArea)
indexed vs none = none
indexed vs (some i) = Option.map (λ v. (i, v)) (get_elem? vs i)

module _ {pg : Paging} where
  open pg use {Tables, Frames, entry, allocate_frame, unmap, map_to}

  -- Without the offset of the physical memory the frame is left as it is.
  unfoldable pub zero_frame : Kernel pg → ℕ → Kernel pg
  zero_frame k frame = record k {
    memory = λ a. if not (k.phys_mem_offset == 0) && in_frame frame a then 0 else k.memory a;
  }

  unfoldable pub copy_frame : Kernel pg → ℕ → ℕ → Kernel pg
  copy_frame k src dst = record k {
    memory = λ a.
        if not (k.phys_mem_offset == 0) && in_frame dst a
        then k.memory (src + (a - dst))
        else k.memory a;
  }

  -- What stands after `map_to` in the three callers: an error is a segmentation fault, and the new
  -- entry is followed by the rest of the handler.
  abbrev pub after_map :
      Kernel pg → Option Tables × Frames → (Kernel pg → Kernel pg) → Kernel pg × PageFaultResult
  after_map k (none, frames) rest =
      (record k { frames = frames }, PageFaultResult.segmentation_fault)
  after_map k (some tables, frames) rest =
      (rest (record k { tables = tables; frames = frames }), PageFaultResult.resolved)

  unfoldable pub map_page :
      Kernel pg → ℕ → ℕ → PageTableFlags → (Kernel pg → Kernel pg) → Kernel pg × PageFaultResult
  map_page k page frame flags rest = after_map k (map_to k.tables k.frames page frame flags) rest

  -- `if let Ok((_, flush)) = mapper.unmap(page) { flush.flush(); }`
  unfoldable pub unmap_page : Kernel pg → ℕ → Kernel pg
  unmap_page k page = elim (unmap k.tables page) [
    | none ↦ k
    | some tables ↦ record k { tables = tables }
  ]

  abbrev pub count_frame : ℕ → Kernel pg → Kernel pg
  count_frame frame k = record k { refs = increment k.refs frame }

  unfoldable pub demand_allocate : Kernel pg → ℕ → VmArea → Kernel pg × PageFaultResult
  demand_allocate k page vma = elim (allocate_frame k.frames) [
    | none ↦ (k, PageFaultResult.segmentation_fault)
    | some (frame, frames) ↦
        map_page (zero_frame (record k { frames = frames }) frame) page frame
          (pte_flags_from_vma vma) (count_frame frame)
  ]

  -- The page is shared with nobody: it is mapped again with write permission.
  unfoldable pub cow_in_place : Kernel pg → ℕ → ℕ → VmArea → ℕ → Kernel pg × PageFaultResult
  cow_in_place k page vma_idx vma old_frame =
      let own = record k { vma_list = set k.vma_list vma_idx (remove_cow vma) } in
      map_page (unmap_page own page) page old_frame (writable (pte_flags_from_vma (remove_cow vma)))
        (λ done. done)

  -- The page is shared: its bytes are copied to a new frame.
  unfoldable pub cow_copy : Kernel pg → ℕ → VmArea → ℕ → Kernel pg × PageFaultResult
  cow_copy k page vma old_frame = elim (allocate_frame k.frames) [
    | none ↦ (k, PageFaultResult.segmentation_fault)
    | some (new_frame, frames) ↦
        let copied = copy_frame (record k { frames = frames }) old_frame new_frame in
        let released = record copied { refs = (decrement copied.refs old_frame).0 } in
        map_page (unmap_page released page) page new_frame (writable (pte_flags_from_vma vma))
          (count_frame new_frame)
  ]

  unfoldable pub cow_resolve : Kernel pg → ℕ → ℕ → VmArea → Kernel pg × PageFaultResult
  cow_resolve k page vma_idx vma = elim (entry k.tables page) [
    | none ↦ (k, PageFaultResult.segmentation_fault)
    | some (old_frame, flags) ↦
        if leb (get k.refs old_frame) 1
        then cow_in_place k page vma_idx vma old_frame
        else cow_copy k page vma old_frame
  ]

  -- The permission check and the choice of what to do, in the area that holds the address.
  unfoldable pub handle_in_area :
      Kernel pg → ℕ → PageFaultErrorCode → ℕ → VmArea → Kernel pg × PageFaultResult
  handle_in_area k fault_addr code vma_idx vma =
      let page = containing_address fault_addr in
      if code.caused_by_write && not vma.prot.write && not vma.flags.cow
      then (k, PageFaultResult.segmentation_fault)
      else if code.caused_by_write && code.protection_violation && vma.flags.cow
      then cow_resolve k page vma_idx vma
      else if vma.flags.anonymous && not code.protection_violation
      then demand_allocate k page vma
      else (k, PageFaultResult.segmentation_fault)

  unfoldable pub handle_page_fault :
      Kernel pg → ℕ → PageFaultErrorCode → Kernel pg × PageFaultResult
  handle_page_fault k fault_addr code = elim (indexed k.vma_list (find_vma k.vma_list fault_addr)) [
    | none ↦ (k, PageFaultResult.segmentation_fault)
    | some (i, vma) ↦ handle_in_area k fault_addr code i vma
  ]
