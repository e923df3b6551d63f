-- ===== src/Heap/Bump.antt =====
-- `BumpAllocator` of kernel/src/allocator/bump.rs. The null pointer is `none`.
use kafka_os.Base.{ℕ, ◌+◌, min, Option, none, some, ltb, ◌==◌, if◌then◌else◌, add64, sub64, u64_max}
use kafka_os.Heap.{Layout, align_up, checked_add}

pub record BumpAllocator : Type 0 where
  pub heap_start : ℕ
  pub heap_end : ℕ
  pub next : ℕ
  pub allocations : ℕ

unfoldable pub new : BumpAllocator
new = record { heap_start = 0; heap_end = 0; next = 0; allocations = 0 }

unfoldable pub init : BumpAllocator → ℕ → ℕ → BumpAllocator
init bump heap_start heap_size = record bump {
  heap_start = heap_start;
  heap_end = min (heap_start + heap_size) u64_max;
  next = heap_start;
}

abbrev take_block : BumpAllocator → ℕ → Option ℕ → BumpAllocator × Option ℕ
take_block bump alloc_start none = (bump, none)
take_block bump alloc_start (some alloc_end) =
    if ltb bump.heap_end alloc_end then (bump, none) else (
      record bump { next = alloc_end; allocations = add64 bump.allocations 1 },
      some alloc_start,
    )

unfoldable pub alloc : BumpAllocator → Layout → BumpAllocator × Option ℕ
unfolding align_up checked_add
alloc bump layout =
    let alloc_start = align_up bump.next layout.align in
    take_block bump alloc_start (checked_add alloc_start layout.size)

unfoldable pub dealloc : BumpAllocator → ℕ → Layout → BumpAllocator
dealloc bump ptr layout =
    let left = sub64 bump.allocations 1 in
    if left == 0
    then record bump { allocations = left; next = bump.heap_start }
    else record bump { allocations = left }
