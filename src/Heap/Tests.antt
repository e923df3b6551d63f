-- ===== src/Heap/Tests.antt =====
-- A heap of one page, and blocks of kernel/src/allocator.
use kafka_os.Base.{max, ◌<◌, ◌+◌, ℕ, ◌+◌, ◌≡◌, ◌≤◌, refl, inr, some, List, [], ◌∷◌, arith}
use kafka_os.Heap.{Layout, align_up}
use kafka_os.Heap.FixedSize
use kafka_os.Heap.FixedSize.{
  Fallback, FixedSizeBlockAllocator, block_sizes, new_allocator, list_index,
}
use kafka_os.Heap.FixedSize.Recycle.{FirstFit, alloc-dealloc}
use kafka_os.Heap.LinkedList.{
  Region, alloc, size_align, find_region, alloc_from_region, split_region, add_free_region,
}
use kafka_os.Heap.LinkedList.Regions.{AreRegions, IsAlign}
use kafka_os.Heap.LinkedList.Conservation.{AllocTo, GivenBack, alloc-conserves, dealloc-alloc}

abbrev one_page : List Region
one_page = record { start_addr = 4096; size = 4096 } ∷ []

abbrev block_layout : Layout
block_layout = record { size = 100; align = 16 }

abbrev after_block : List Region
after_block = record { start_addr = 4208; size = 3984 } ∷ []

one_page-AreRegions : AreRegions one_page
one_page-AreRegions =
    (record { aligned = refl; whole = refl; large = omega arith; end_lt = omega arith }, tt)

block_layout-IsAlign : IsAlign 16
block_layout-IsAlign = (inr (inr (inr (2, refl, omega arith))), omega arith)

alloc-conserves_example :
    (sz : ℕ) × (100 ≤ sz)
    × (sz < max 17 (100 + max block_layout.align 8))
    × AllocTo one_page block_layout sz
alloc-conserves_example =
    alloc-conserves one_page block_layout one_page-AreRegions block_layout-IsAlign (omega arith)

alloc-block_layout : alloc one_page block_layout ≡ some (after_block, some 4096)
unfolding alloc size_align find_region alloc_from_region align_up split_region add_free_region
alloc-block_layout = refl

dealloc-alloc_example : GivenBack one_page block_layout after_block 4096
dealloc-alloc_example =
    dealloc-alloc one_page block_layout after_block 4096 one_page-AreRegions block_layout-IsAlign
      (omega arith) alloc-block_layout

-- A heap that takes its blocks one after the other and takes none back.
abbrev counting_heap : Fallback
counting_heap = record {
  Heap = ℕ;
  empty = 0;
  init = λ h start size. start;
  allocate_first_fit = λ h layout. (h + layout.size, some h);
  deallocate = λ h ptr layout. h;
}

abbrev freed_layout : Layout
freed_layout = record { size = 24; align = 8 }

abbrev wanted_layout : Layout
wanted_layout = record { size = 30; align = 4 }

abbrev fresh_blocks : FixedSizeBlockAllocator counting_heap
fresh_blocks = record {
  list_heads = [] ∷ [] ∷ (64 ∷ []) ∷ [] ∷ [] ∷ [] ∷ [] ∷ [] ∷ [] ∷ [];
  fallback_allocator = 128;
}

freed_index : list_index freed_layout ≡ some 2
unfolding list_index
freed_index = refl

wanted_index : list_index wanted_layout ≡ some 2
unfolding list_index
wanted_index = refl

alloc-dealloc_example :
    (a' : FixedSizeBlockAllocator counting_heap) × (FixedSize.dealloc fresh_blocks 96 freed_layout
      ≡ some a')
    × (FixedSize.alloc a' wanted_layout ≡ (fresh_blocks, some 96))
    × FirstFit 30 block_sizes 2
alloc-dealloc_example =
    alloc-dealloc fresh_blocks 96 freed_layout wanted_layout 2 refl freed_index wanted_index
