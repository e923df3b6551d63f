-- ===== src/Vm/Fault/Denied.antt =====
-- The faults that kernel/src/vm.rs refuses, and how the handler finds the area of a fault.
use kafka_os.Base.{
  ℕ, ◌≡◌, ◌⊎◌, inl, inr, refl, Option, none, some, true, false, List, arith, get_elem?,
}
use kafka_os.Vm.Area.{VmArea, find_vma}
use kafka_os.Vm.AreaList.{area_at, at_index}
use kafka_os.Vm.Paging.{Paging}
use kafka_os.Vm.Fault.{
  Kernel, PageFaultErrorCode, PageFaultResult, indexed, handle_page_fault, handle_in_area,
}

indexed_cases :
    (vs : List VmArea) (o : Option ℕ) (v : VmArea)
    → at_index vs o ≡ some v
    → (i : ℕ) × (o ≡ some i) × (get_elem? vs i ≡ some v) × (indexed vs o ≡ some (i, v))
indexed_cases vs none v e = cc
indexed_cases vs (some i) v e = (i, refl, e, rw e)

indexed-none : (vs : List VmArea) (o : Option ℕ) → at_index vs o ≡ none → indexed vs o ≡ none
indexed-none vs none e = refl
indexed-none vs (some i) e = rw e

module _ {pg : Paging} (k : Kernel pg) (addr : ℕ) (code : PageFaultErrorCode) where
  -- A fault in an area is handled in that area.
  pub handle_page_fault-area_at :
      (v : VmArea)
      → area_at k.vma_list addr ≡ some v
      → (i : ℕ) × (find_vma k.vma_list addr ≡ some i)
        × (get_elem? k.vma_list i ≡ some v)
        × (handle_page_fault k addr code ≡ handle_in_area k addr code i v)
  unfolding handle_page_fault area_at
  handle_page_fault-area_at v e =
      let (i, f, g, h) = indexed_cases k.vma_list (find_vma k.vma_list addr) v e in
      (i, f, g, rw (h, handle_page_fault))

  handle_page_fault_outside :
      area_at k.vma_list addr ≡ none
      → handle_page_fault k addr code ≡ (k, PageFaultResult.segmentation_fault)
  unfolding handle_page_fault area_at
  handle_page_fault_outside e =
      rw (indexed-none k.vma_list (find_vma k.vma_list addr) e, handle_page_fault)

  -- What the handler is to refuse: an address of no area; a write to an area that is neither writable
  -- nor copy on write; a protection violation that is no write to a copy-on-write area; a missing
  -- page of an area that is not anonymous.
  abbrev pub Refused : Type 0
  Refused =
      (area_at k.vma_list addr ≡ none)
      ⊎ ((v : VmArea) × (area_at k.vma_list addr ≡ some v)
          × (((code.caused_by_write ≡ true) × (v.prot.write ≡ false) × (v.flags.cow ≡ false))
              ⊎ ((code.protection_violation ≡ true) × (code.caused_by_write ≡ false))
              ⊎ ((code.protection_violation ≡ true) × (v.flags.cow ≡ false))
              ⊎ ((code.protection_violation ≡ false) × (v.flags.anonymous ≡ false))))

  -- A fault at an address of no area, a write to an area neither writable nor copy on write, a
  -- protection violation that is no write to a copy-on-write area, and a missing page of an area that is
  -- not anonymous are segmentation faults, and leave areas, page tables, frames, counts and memory as
  -- they were.
  pub handle_page_fault-Refused :
      Refused → handle_page_fault k addr code ≡ (k, PageFaultResult.segmentation_fault)
  unfolding handle_in_area
  handle_page_fault-Refused (inl e) = handle_page_fault_outside e
  handle_page_fault-Refused (inr (v, e, r)) =
      let (i, f, g, h) = handle_page_fault-area_at v e in rw h (ground arith)
