-- ===== src/Heap/FixedSize.antt =====
-- `FixedSizeBlockAllocator` of kernel/src/allocator/fixed_size_block.rs. A free block is its address; the
-- list of a block size is the chain of nodes written in its free blocks. `none` is a panic.
pub mod Recycle
use kafka_os.Base.{
  ℕ, zero, suc, ◌+◌, ◌≡◌, ◌≤◌, ◌<◌, ◌∙◌, refl, max, Option, none, some, List, [], ◌∷◌, ltb, leb,
  ◌==◌, if◌then◌else◌, ◌>>=◌, get_or, get_elem?, set, length, arith, replicate,
}
use mathlib.Core.Option
use kafka_os.Heap.{Layout}

-- `linked_list_allocator::Heap`, a crate: blocks of it are taken and given back.
pub record Fallback : Type 1 where
  pub Heap : Type 0
  pub empty : Heap
  pub init : Heap → ℕ → ℕ → Heap
  -- No pointer is an error, and then the heap is as it was.
  pub allocate_first_fit : Heap → Layout → Heap × Option ℕ
  pub deallocate : Heap → ℕ → Layout → Heap

abbrev pub block_sizes : List ℕ
block_sizes = 8 ∷ 16 ∷ 32 ∷ 64 ∷ 128 ∷ 256 ∷ 512 ∷ 1024 ∷ 2048 ∷ []

-- The position of the first size that is large enough.
unfoldable pub first_fit : ℕ → List ℕ → Option ℕ
first_fit required [] = none
first_fit required (s ∷ sizes) =
    if leb required s then some 0 else Option.map suc (first_fit required sizes)

unfoldable pub list_index : Layout → Option ℕ
unfolding first_fit
list_index layout = first_fit (max layout.size layout.align) block_sizes

module _ (fb : Fallback) where
  open fb use {Heap}

  pub record FixedSizeBlockAllocator : Type 0 where
    pub list_heads : List (List ℕ)
    pub fallback_allocator : Heap

module _ {fb : Fallback} where
  open fb use {empty, init, allocate_first_fit, deallocate}

  unfoldable pub new_allocator : FixedSizeBlockAllocator fb
  new_allocator = record {
    list_heads = replicate (length block_sizes) [];
    fallback_allocator = empty;
  }

  unfoldable pub init_allocator : FixedSizeBlockAllocator fb → ℕ → ℕ → FixedSizeBlockAllocator fb
  init_allocator a heap_start heap_size = record a {
    fallback_allocator = init a.fallback_allocator heap_start heap_size;
  }

  unfoldable pub fallback_alloc :
      FixedSizeBlockAllocator fb → Layout → FixedSizeBlockAllocator fb × Option ℕ
  fallback_alloc a layout =
      let (heap, ptr) = allocate_first_fit a.fallback_allocator layout in
      (record a { fallback_allocator = heap }, ptr)

  abbrev alloc_block :
      FixedSizeBlockAllocator fb → ℕ → List ℕ → FixedSizeBlockAllocator fb × Option ℕ
  alloc_block a index (node ∷ next) =
      (record a { list_heads = set a.list_heads index next }, some node)
  alloc_block a index [] =
      let block_size = get_or block_sizes index 0 in
      fallback_alloc a (record { size = block_size; align = block_size })

  abbrev alloc_at :
      FixedSizeBlockAllocator fb → Layout → Option ℕ → FixedSizeBlockAllocator fb × Option ℕ
  alloc_at a layout (some index) = alloc_block a index (get_or a.list_heads index [])
  alloc_at a layout none = fallback_alloc a layout

  unfoldable pub alloc : FixedSizeBlockAllocator fb → Layout → FixedSizeBlockAllocator fb × Option ℕ
  alloc a layout = alloc_at a layout (list_index layout)

  -- The assertions hold of every block size, `ListNode` being one word. A null pointer is 0.
  abbrev dealloc_at :
      FixedSizeBlockAllocator fb → ℕ → Layout → Option ℕ → Option (FixedSizeBlockAllocator fb)
  dealloc_at a ptr layout (some index) =
      if leb 8 (get_or block_sizes index 0)
      then some
          (record a { list_heads = set a.list_heads index (ptr ∷ get_or a.list_heads index []) })
      else none
  dealloc_at a ptr layout none =
      if ptr == 0
      then none
      else some (record a { fallback_allocator = deallocate a.fallback_allocator ptr layout })

  unfoldable pub dealloc :
      FixedSizeBlockAllocator fb → ℕ → Layout → Option (FixedSizeBlockAllocator fb)
  dealloc a ptr layout = dealloc_at a ptr layout (list_index layout)
