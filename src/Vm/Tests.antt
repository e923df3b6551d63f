-- ===== src/Vm/Tests.antt =====
-- One writable area of two pages for kernel/src/vm.rs, with page tables that are a list of mappings.
use kafka_os.Base.{
  min, ℕ, ◌+◌, ◌<◌, ◌≤◌, ◌≡◌, ◌≢◌, inl, inr, refl, sym, ap, ◌∙◌, Bool, true, false, Option, none,
  some, [], ◌∷◌, if◌then◌else◌, ◌==◌, arith, ==_refl,
}
use mathlib.Core.Option
use kafka_os.Vm.Area.{
  VmArea, PageTableFlags, contains, find_vma, position, insert_vma, remove_vma_range,
  pte_flags_from_vma,
}
use kafka_os.Vm.AreaList.{
  area_at, IsAreaMap, area_at-insert_vma, insert_vma-IsAreaMap, area_at-remove_vma_range,
}
use kafka_os.Vm.RefCounts.{FrameRefCounts, get, frame_index, tracked, AreApart}
use kafka_os.Vm.Paging.{Paging}
use kafka_os.Vm.Fault.{Kernel, PageFaultErrorCode, PageFaultResult, handle_page_fault, writable}
use kafka_os.Vm.Fault.Denied.{handle_page_fault-Refused}
use kafka_os.Vm.Fault.Demand.{handle_page_fault-Demand}
use kafka_os.Vm.Fault.Cow.{handle_page_fault-CowWrite, handle_page_fault_forgets_cow}

-- The mapping of a page, which a function gives; an update changes it at one page.
abbrev TestTables : Type 0
TestTables = ℕ → Option (ℕ × PageTableFlags)

abbrev update : TestTables → ℕ → Option (ℕ × PageTableFlags) → TestTables
update t page e other = if other == page then e else t other

update_same :
    (t : TestTables) (page : ℕ) (e : Option (ℕ × PageTableFlags)) → update t page e page ≡ e
update_same t page e = rw (==_refl page)

update_other :
    (t : TestTables) (page other : ℕ) (e : Option (ℕ × PageTableFlags))
    → other ≢ page
    → update t page e other ≡ t other
update_other t page other e h = ground arith

looked_up : Option TestTables → ℕ → Option (ℕ × PageTableFlags)
looked_up none page = none
looked_up (some t) page = t page

updated :
    (t t' : TestTables) (page other : ℕ) (e : Option (ℕ × PageTableFlags))
    → some (update t page e) ≡ some t'
    → t' other ≡ update t page e other
unfolding looked_up
updated t t' page other e same = sym (ap (λ (o : Option TestTables). looked_up o other) same)

-- Frames are handed out one after the other.
abbrev paging : Paging
paging = record {
  Tables = TestTables;
  Frames = ℕ;
  entry = λ t page. t page;
  allocate_frame = λ next. some (next, next + 4096);
  unmap = λ t page. some (update t page none);
  map_to = λ t f page frame flags. (some (update t page (some (frame, flags))), f);
  entry-map_to = λ t t' f page frame flags e. updated t t' page page _ e ∙ update_same t page _;
  entry-map_to_ne = λ t t' f page frame flags other e h.
      updated t t' page other _ e ∙ update_other t page other _ h;
  entry-unmap = λ t t' page e. updated t t' page page _ e ∙ update_same t page _;
  entry-unmap_ne =
      λ t t' page other e h. updated t t' page other _ e ∙ update_other t page other _ h;
}

abbrev area : ℕ → ℕ → Bool → VmArea
area start end cow = record {
  start = start;
  end = end;
  prot = record { read = true; write = true; execute = false };
  flags = record { anonymous = true; file = false; cow = cow; shared = false };
  ref_count = 1;
}

abbrev counted : ℕ → FrameRefCounts
counted n = record { counts = λ i. n; base_addr = 0; initialized = true }

abbrev kernel : VmArea → TestTables → ℕ → Kernel paging
kernel v tables n = record {
  vma_list = v ∷ [];
  tables = tables;
  frames = 65536;
  refs = counted n;
  memory = λ a. 7;
  phys_mem_offset = 1;
}

abbrev fault : Bool → Bool → PageFaultErrorCode
fault write present = record {
  caused_by_write = write;
  protection_violation = present;
  user_mode = true;
}

abbrev unmapped : TestTables
unmapped page = none

abbrev read_only : PageTableFlags
read_only = record (pte_flags_from_vma (area 4096 12288 true)) { writable = false }

abbrev shared_pages : TestTables
shared_pages page = some (page, read_only)

area_at-insert_vma_example :
    area_at (insert_vma (area 0 4096 false ∷ []) (area 4096 12288 false)) 5000 ≡ (
      if contains (area 4096 12288 false) 5000
      then some (area 4096 12288 false)
      else area_at (area 0 4096 false ∷ []) 5000)
area_at-insert_vma_example =
    area_at-insert_vma (area 0 4096 false ∷ []) (area 4096 12288 false) 5000 (inr (omega arith), tt)

insert_vma-IsAreaMap_example :
    IsAreaMap (insert_vma (area 4096 8192 false ∷ []) (area 0 4096 false))
insert_vma-IsAreaMap_example =
    insert_vma-IsAreaMap (area 4096 8192 false ∷ []) (area 0 4096 false) (inl (omega arith), tt)
      (record { sorted = (omega arith, tt); disjoint = (tt, tt) })

area_at-remove_vma_range_example :
    area_at (remove_vma_range (area 0 4096 false ∷ area 4096 8192 false ∷ []) 0 4096).0 100 ≡ none
area_at-remove_vma_range_example =
    area_at-remove_vma_range (area 0 4096 false ∷ area 4096 8192 false ∷ []) 0 4096 100
      (omega arith) (omega arith)

-- The code of a read-only page that is read, which is no fault to resolve.
handle_page_fault-Refused_example :
    handle_page_fault (kernel (area 4096 12288 true) shared_pages 2) 100 (fault true true)
    ≡ (kernel (area 4096 12288 true) shared_pages 2, PageFaultResult.segmentation_fault)
unfolding area_at find_vma position
handle_page_fault-Refused_example =
    handle_page_fault-Refused (kernel (area 4096 12288 true) shared_pages 2) 100 (fault true true)
      (inl refl)

abbrev demanded : Kernel paging
demanded = kernel (area 4096 12288 false) unmapped 0

handle_page_fault-Demand_example :
    let (k', result) = handle_page_fault demanded 5000 (fault true false) in
    (result ≡ PageFaultResult.resolved)
    × (k'.tables 4096
        ≡ some (
          65536,
          record { present = true; writable = true; user_accessible = true; no_execute = true },
        ))
    × ((other : ℕ) → other ≢ 4096 → k'.tables other ≡ none)
    × ((a : ℕ) → 65536 ≤ a → a < 69632 → k'.memory a ≡ 0)
    × ((a : ℕ) → a < 65536 → k'.memory a ≡ 7)
    × ((a : ℕ) → 69632 ≤ a → k'.memory a ≡ 7)
    × (get k'.refs 65536
        ≡ (if tracked (counted 0) 65536 then min (get (counted 0) 65536 + 1) 65535 else 0))
    × ((other : ℕ) → AreApart 65536 other → get k'.refs other ≡ get (counted 0) other)
    × (k'.vma_list ≡ area 4096 12288 false ∷ [])
unfolding area_at find_vma position pte_flags_from_vma
handle_page_fault-Demand_example =
    handle_page_fault-Demand demanded 5000 (fault true false) (area 4096 12288 false) 65536 69632
      69632 (update unmapped 4096 (some (65536, pte_flags_from_vma (area 4096 12288 false))))
      (record { inside = refl; anonymous = refl; missing = refl; allowed = inr refl }) (omega arith)
      refl refl

abbrev shared : Kernel paging
shared = kernel (area 4096 12288 true) shared_pages 2

abbrev copied_flags : PageTableFlags
copied_flags = writable (pte_flags_from_vma (area 4096 12288 true))

handle_page_fault-CowWrite_example :
    let (k', result) = handle_page_fault shared 5000 (fault true true) in
    (result ≡ PageFaultResult.resolved)
    × (k'.tables 4096
        ≡ some (
          65536,
          record { present = true; writable = true; user_accessible = true; no_execute = true },
        ))
    × ((other : ℕ) → other ≢ 4096 → k'.tables other ≡ shared_pages other)
    × ((i : ℕ) → i < 4096 → k'.memory (65536 + i) ≡ 7)
    × ((i : ℕ) → i < 4096 → k'.memory (4096 + i) ≡ 7)
    × (get k'.refs 4096 ≡ 1)
    × (get k'.refs 65536
        ≡ (if tracked (counted 2) 65536 then min (get (counted 2) 65536 + 1) 65535 else 0))
    × ((frame : ℕ)
        → AreApart 4096 frame
        → AreApart 65536 frame
        → get k'.refs frame ≡ get (counted 2) frame)
    × (k'.vma_list ≡ area 4096 12288 true ∷ [])
unfolding area_at find_vma position get frame_index pte_flags_from_vma
handle_page_fault-CowWrite_example =
    handle_page_fault-CowWrite shared 5000 (fault true true) (area 4096 12288 true) 4096 65536
      read_only 69632 69632 (update shared_pages 4096 none)
      (update (update shared_pages 4096 none) 4096 (some (65536, copied_flags)))
      (record { inside = refl; cow = refl; present = refl; is_write = refl }) (omega arith) refl
      (omega arith) (inl (omega arith)) refl refl refl

abbrev left_alone : Kernel paging
left_alone = kernel (area 4096 12288 true) shared_pages 1

-- The first page is resolved; a write to the second is refused.
handle_page_fault_forgets_cow_example :
    let k' = (handle_page_fault left_alone 5000 (fault true true)).0 in
    handle_page_fault k' 9000 (fault true true) ≡ (k', PageFaultResult.segmentation_fault)
unfolding area_at find_vma position get frame_index
handle_page_fault_forgets_cow_example =
    handle_page_fault_forgets_cow left_alone 5000 9000 (fault true true) (area 4096 12288 true) 4096
      read_only (record { inside = refl; cow = refl; present = refl; is_write = refl }) refl refl
      (omega arith)
