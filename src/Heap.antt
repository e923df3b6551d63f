-- ===== src/Heap.antt =====
-- The heap allocators: kernel/src/allocator.rs and kernel/src/allocator. An address is a number below
-- 2 ^ 64; a layout is what `core::alloc::Layout` holds: a size and an alignment that is a power of two.
pub mod Bump
pub mod LinkedList
pub mod FixedSize
mod Tests
use kafka_os.Base.{ℕ, ◌+◌, ◌-◌, ◌*◌, ◌/◌, ◌%◌, ◌^◌, Option, none, some, ltb, if◌then◌else◌, u64_mod}

pub record Layout : Type 0 where
  pub size : ℕ
  pub align : ℕ

-- `(addr + align - 1) & !(align - 1)`: the mask clears the digits below a power of two.
unfoldable pub align_up : ℕ → ℕ → ℕ
align_up addr align = (addr + align - 1) % u64_mod / align * align

unfoldable pub checked_add : ℕ → ℕ → Option ℕ
checked_add a b = if ltb (a + b) u64_mod then some (a + b) else none
