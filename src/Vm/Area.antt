-- ===== src/Vm/Area.antt =====
-- Virtual memory areas and the area list of a process: kernel/src/vm.rs, lines 6 to 50 and 123 to
-- 155, and `cow_fork_vmas`. An address is its number; a bit-flag type is a record of its bits.
use kafka_os.Base.{
  ℕ, suc, ◌/◌, Bool, true, ◌&&◌, not, Option, none, some, List, [], ◌∷◌, ltb, leb, if◌then◌else◌,
  add64, sub64,
}
use mathlib.Core.Option

-- `VmProt`
pub record VmProt : Type 0 where
  pub read : Bool
  pub write : Bool
  pub execute : Bool

-- `VmFlags`
pub record VmFlags : Type 0 where
  pub anonymous : Bool
  pub file : Bool
  pub cow : Bool
  pub shared : Bool

pub record VmArea : Type 0 where
  pub start : ℕ
  pub end : ℕ
  pub prot : VmProt
  pub flags : VmFlags
  pub ref_count : ℕ

-- `VmArea::new`
unfoldable pub new_area : ℕ → ℕ → VmProt → VmFlags → VmArea
new_area start end prot flags = record {
  start = start;
  end = end;
  prot = prot;
  flags = flags;
  ref_count = 1;
}

abbrev pub contains : VmArea → ℕ → Bool
contains vma addr = leb vma.start addr && ltb addr vma.end

unfoldable pub page_count : VmArea → ℕ
page_count vma = sub64 vma.end vma.start / 4096

-- `position` of an iterator: the index of the first area that passes the test.
unfoldable pub position : (VmArea → Bool) → List VmArea → Option ℕ
position test [] = none
position test (v ∷ vs) = if test v then some 0 else Option.map suc (position test vs)

unfoldable pub find_vma : List VmArea → ℕ → Option ℕ
unfolding position
find_vma vmas addr = position (λ vma. contains vma addr) vmas

-- `insert(pos, vma)` at the first area that starts later, at the end if there is none.
unfoldable pub insert_vma : List VmArea → VmArea → List VmArea
insert_vma [] vma = vma ∷ []
insert_vma (v ∷ vs) vma = if ltb vma.start v.start then vma ∷ v ∷ vs else v ∷ insert_vma vs vma

abbrev pub overlaps : ℕ → ℕ → VmArea → Bool
overlaps start end vma = ltb vma.start end && ltb start vma.end

-- The areas that are left, and those that were removed, in their order.
unfoldable pub remove_vma_range : List VmArea → ℕ → ℕ → List VmArea × List VmArea
remove_vma_range [] start end = ([], [])
remove_vma_range (v ∷ vs) start end =
    let (kept, removed) = remove_vma_range vs start end in
    if overlaps start end v then (kept, v ∷ removed) else (v ∷ kept, removed)

-- The page table flags that this code sets.
pub record PageTableFlags : Type 0 where
  pub present : Bool
  pub writable : Bool
  pub user_accessible : Bool
  pub no_execute : Bool

unfoldable pub pte_flags_from_vma : VmArea → PageTableFlags
pte_flags_from_vma vma = record {
  present = true;
  writable = vma.prot.write && not vma.flags.cow;
  user_accessible = true;
  no_execute = not vma.prot.execute;
}

-- The parent's areas and the child's, after a fork.
unfoldable pub cow_fork_area : VmArea → VmArea
cow_fork_area vma =
    if vma.prot.write
    then record vma { flags = record (vma.flags) { cow = true }; ref_count = add64 vma.ref_count 1 }
    else vma

unfoldable pub cow_fork_vmas : List VmArea → List VmArea × List VmArea
unfolding cow_fork_area
cow_fork_vmas [] = ([], [])
cow_fork_vmas (v ∷ vs) =
    let (parent, child) = cow_fork_vmas vs in (cow_fork_area v ∷ parent, cow_fork_area v ∷ child)
