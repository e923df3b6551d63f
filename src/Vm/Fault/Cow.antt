-- ===== src/Vm/Fault/Cow.antt =====
-- Copy on write in kernel/src/vm.rs: the shared page, and the page that is shared no longer.
use kafka_os.Base.{
  ℕ, zero, suc, ◌+◌, ◌-◌, ◌≤◌, ◌<◌, ◌≡◌, ◌≢◌, ◌⊎◌, ◌∙◌, inl, inr, refl, ap, Option, none, some,
  true, false, arith, leb, Bool, not, min, if◌then◌else◌, List, [], ◌∷◌, set, get_elem?,
}
use kafka_os.Vm.Area.{VmArea, PageTableFlags, pte_flags_from_vma, contains, find_vma, position}
use kafka_os.Vm.AreaList.{area_at, at_index}
use kafka_os.Vm.RefCounts.{
  FrameRefCounts, increment, decrement, get, tracked, AreApart, get-increment, get-increment_other,
  get-decrement, get-decrement_other, tracked-decrement,
}
use kafka_os.Vm.Paging.{Paging}
use kafka_os.Vm.Fault.{
  Kernel, PageFaultErrorCode, PageFaultResult, handle_page_fault, handle_in_area,
  containing_address, cow_resolve, cow_copy, cow_in_place, map_page, copy_frame, unmap_page,
  writable, remove_cow,
}
use kafka_os.Vm.Fault.Denied.{handle_page_fault-area_at, handle_page_fault-Refused}

sub_lem : (n j : ℕ) → n + j - n ≡ j
sub_lem n j = omega arith

AreApart-sym : (a b : ℕ) → AreApart a b → AreApart b a
AreApart-sym a b (inl h) = inr h
AreApart-sym a b (inr h) = inl h

-- The counts once a reference to one frame became one to another.
shared_counts-old :
    (r : FrameRefCounts) (old new : ℕ)
    → AreApart old new
    → get (increment (decrement r old).0 new) old ≡ get r old - 1
shared_counts-old r old new h =
    get-increment_other (decrement r old).0 new old (AreApart-sym old new h) ∙ get-decrement r old

shared_counts-new :
    (r : FrameRefCounts) (old new : ℕ)
    → AreApart old new
    → get (increment (decrement r old).0 new) new
      ≡ (if tracked r new then min (get r new + 1) 65535 else 0)
shared_counts-new r old new h =
    get-increment (decrement r old).0 new
    ∙ ap (λ (b : Bool). if b then min (get (decrement r old).0 new + 1) 65535 else 0)
        (tracked-decrement r old new)
    ∙ ap (λ (n : ℕ). if tracked r new then min (n + 1) 65535 else 0)
        (get-decrement_other r old new h)

shared_counts_other :
    (r : FrameRefCounts) (old new frame : ℕ)
    → AreApart old frame
    → AreApart new frame
    → get (increment (decrement r old).0 new) frame ≡ get r frame
shared_counts_other r old new frame h k =
    get-increment_other (decrement r old).0 new frame k ∙ get-decrement_other r old frame h

-- A write to a present page of a copy-on-write area.
pub record CowWrite {pg : Paging} (k : Kernel pg) (addr : ℕ) (code : PageFaultErrorCode)
    (v : VmArea) : Type 0 where
  pub inside : area_at k.vma_list addr ≡ some v
  pub cow : v.flags.cow ≡ true
  pub present : code.protection_violation ≡ true
  pub is_write : code.caused_by_write ≡ true

module _ {pg : Paging} where
  open pg use {
    Tables, Frames, entry, allocate_frame, unmap, map_to, entry-map_to, entry-map_to_ne,
    entry-unmap_ne,
  }

  cow-handled :
      (k : Kernel pg) (addr : ℕ) (code : PageFaultErrorCode) (v : VmArea)
      → CowWrite k addr code v
      → (i : ℕ) × (find_vma k.vma_list addr ≡ some i)
        × (get_elem? k.vma_list i ≡ some v)
        × (handle_page_fault k addr code ≡ cow_resolve k (containing_address addr) i v)
  unfolding handle_in_area
  cow-handled k addr code v c =
      let (i, f, g, h) = handle_page_fault-area_at k addr code v c.inside in
      (i, f, g, rw h (ground arith))

  -- The state after a page was copied.
  abbrev copied : Kernel pg → ℕ → ℕ → Frames → Tables → Kernel pg
  copied k old new f t = record (copy_frame k old new) {
    tables = t;
    frames = f;
    refs = increment (decrement k.refs old).0 new;
  }

  cow_copy_lem :
      (k : Kernel pg) (page : ℕ) (v : VmArea) (old new : ℕ) (f1 f2 : Frames) (t1 t2 : Tables)
      → allocate_frame k.frames ≡ some (new, f1)
      → unmap k.tables page ≡ some t1
      → map_to t1 f1 page new (writable (pte_flags_from_vma v)) ≡ (some t2, f2)
      → cow_copy k page v old ≡ (copied k old new f2 t2, PageFaultResult.resolved)
  unfolding cow_copy map_page copy_frame unmap_page
  cow_copy_lem k page v old new f1 f2 t1 t2 e u m =
      rw (e, cow_copy) (rw (u, unmap_page, map_page) (rw m))

  cow_resolve_shared :
      (k : Kernel pg) (page i : ℕ) (v : VmArea) (old : ℕ) (flags : PageTableFlags)
      → entry k.tables page ≡ some (old, flags)
      → 1 < get k.refs old
      → cow_resolve k page i v ≡ cow_copy k page v old
  unfolding cow_resolve
  cow_resolve_shared k page i v old flags e h =
      let many : leb (get k.refs old) 1 ≡ false = ground arith in rw (e, cow_resolve) (rw many)

  -- A write to a present page of a copy-on-write area whose frame has several references, with a new
  -- frame apart from the old one at hand, is resolved: the page maps to that frame, present, writable, open
  -- to user mode, and executable as its area is, with the bytes of the old one, whose bytes stay as they
  -- are; the other pages map as before; the old frame has one reference less, the new one has one more, up
  -- to 65535, where it is tracked, and every frame apart from both has as many as before; the areas stay as
  -- they are.
  pub handle_page_fault-CowWrite :
      (k : Kernel pg) (addr : ℕ) (code : PageFaultErrorCode) (v : VmArea) (old new : ℕ)
      (flags : PageTableFlags) (f1 f2 : Frames) (t1 t2 : Tables)
      → CowWrite k addr code v
      → 0 < k.phys_mem_offset
      → entry k.tables (containing_address addr) ≡ some (old, flags)
      → 1 < get k.refs old
      → (old + 4096 ≤ new) ⊎ (new + 4096 ≤ old)
      → allocate_frame k.frames ≡ some (new, f1)
      → unmap k.tables (containing_address addr) ≡ some t1
      → map_to t1 f1 (containing_address addr) new (writable (pte_flags_from_vma v)) ≡ (some t2, f2)
      → let (k', result) = handle_page_fault k addr code in
        (result ≡ PageFaultResult.resolved)
        × (entry k'.tables (containing_address addr)
            ≡ some (
              new,
              record {
                present = true;
                writable = true;
                user_accessible = true;
                no_execute = not v.prot.execute;
              },
            ))
        × ((other : ℕ)
            → other ≢ containing_address addr
            → entry k'.tables other ≡ entry k.tables other)
        × ((i : ℕ) → i < 4096 → k'.memory (new + i) ≡ k.memory (old + i))
        × ((i : ℕ) → i < 4096 → k'.memory (old + i) ≡ k.memory (old + i))
        × (get k'.refs old ≡ get k.refs old - 1)
        × (get k'.refs new ≡ (if tracked k.refs new then min (get k.refs new + 1) 65535 else 0))
        × ((frame : ℕ)
            → AreApart old frame
            → AreApart new frame
            → get k'.refs frame ≡ get k.refs frame)
        × (k'.vma_list ≡ k.vma_list)
  unfolding copy_frame pte_flags_from_vma
  handle_page_fault-CowWrite k addr code v old new flags f1 f2 t1 t2 c set_up e many apart a u m =
      let (i, f, g, h) = cow-handled k addr code v c in
      let page = containing_address addr in
      let mapped = ap (λ (r : Option Tables × Frames). r.0) m in
      rw
        (h
          ∙ cow_resolve_shared k page i v old flags e many
          ∙ cow_copy_lem k page v old new f1 f2 t1 t2 a u m)
        (
          refl,
          entry-map_to t1 t2 f1 page new _ mapped,
          (λ other d.
              entry-map_to_ne t1 t2 f1 page new _ other mapped d
              ∙ entry-unmap_ne k.tables t1 page other u d),
          (λ j lt. ground (arith, ap (λ (x : ℕ). k.memory (old + x)) (sub_lem new j))),
          (λ j lt. ground arith),
          shared_counts-old k.refs old new apart,
          shared_counts-new k.refs old new apart,
          shared_counts_other k.refs old new,
          refl,
        )

-- The area list after the flag of the area at an index is cleared.
get_elem?-set_self :
    (vs : List VmArea) (i : ℕ) (v w : VmArea)
    → get_elem? vs i ≡ some v
    → get_elem? (set vs i w) i ≡ some w
get_elem?-set_self [] i v w e = cc
get_elem?-set_self (x ∷ vs) zero v w e = refl
get_elem?-set_self (x ∷ vs) (suc i) v w e = get_elem?-set_self vs i v w e

position-set :
    (vs : List VmArea) (i a : ℕ) (v : VmArea)
    → get_elem? vs i ≡ some v
    → position (λ vma. contains vma a) (set vs i (remove_cow v))
      ≡ position (λ vma. contains vma a) vs
unfolding position
position-set [] i a v e = refl
position-set (x ∷ vs) zero a v e = ground arith
position-set (x ∷ vs) (suc i) a v e = rw (position-set vs i a v e)

at_index-cases :
    (vs : List VmArea) (o : Option ℕ) (v : VmArea)
    → at_index vs o ≡ some v
    → (i : ℕ) × (o ≡ some i) × (get_elem? vs i ≡ some v)
at_index-cases vs none v e = cc
at_index-cases vs (some i) v e = (i, refl, e)

-- Two addresses of one area, once the area's flag is cleared: the second is in the cleared area.
area_at-set :
    (vs : List VmArea) (i b : ℕ) (v : VmArea)
    → get_elem? vs i ≡ some v
    → find_vma vs b ≡ some i
    → area_at (set vs i (remove_cow v)) b ≡ some (remove_cow v)
unfolding area_at find_vma
area_at-set vs i b v e f =
    rw (position-set vs i b v e ∙ f) (get_elem?-set_self vs i v (remove_cow v) e)

module _ {pg : Paging} where
  open pg use {Tables, Frames, entry, allocate_frame, unmap, map_to}

  cow_in_place-vma_list :
      (k : Kernel pg) (page i : ℕ) (v : VmArea) (old : ℕ)
      → (cow_in_place k page i v old).0.vma_list ≡ set k.vma_list i (remove_cow v)
  unfolding cow_in_place map_page unmap_page
  cow_in_place-vma_list k page i v old = ground arith

  cow_resolve_own :
      (k : Kernel pg) (page i : ℕ) (v : VmArea) (old : ℕ) (flags : PageTableFlags)
      → entry k.tables page ≡ some (old, flags)
      → get k.refs old ≤ 1
      → cow_resolve k page i v ≡ cow_in_place k page i v old
  unfolding cow_resolve
  cow_resolve_own k page i v old flags e h =
      let few : leb (get k.refs old) 1 ≡ true = ground arith in rw (e, cow_resolve) (rw few)

  -- Resolving one page in place, as a frame with at most one reference is, clears the flag of its whole
  -- area: the next write to a present page at any address of the area is a segmentation fault.
  pub handle_page_fault_forgets_cow :
      (k : Kernel pg) (addr other : ℕ) (code : PageFaultErrorCode) (v : VmArea) (old : ℕ)
      (flags : PageTableFlags)
      → CowWrite k addr code v
      → find_vma k.vma_list other ≡ find_vma k.vma_list addr
      → entry k.tables (containing_address addr) ≡ some (old, flags)
      → get k.refs old ≤ 1
      → let k' = (handle_page_fault k addr code).0 in
        handle_page_fault k' other code ≡ (k', PageFaultResult.segmentation_fault)
  handle_page_fault_forgets_cow k addr other code v old flags c same e few =
      let (i, f, g, h) = cow-handled k addr code v c in
      let k' = (handle_page_fault k addr code).0 in
      let own = h ∙ cow_resolve_own k (containing_address addr) i v old flags e few in
      let vmas : k'.vma_list ≡ set k.vma_list i (remove_cow v) =
        rw own (cow_in_place-vma_list k (containing_address addr) i v old) in
      handle_page_fault-Refused k' other code (
        inr (
          remove_cow v,
          (rw vmas (area_at-set k.vma_list i other v g (same ∙ f))),
          inr (inr (inl (c.present, refl))),
        ))
