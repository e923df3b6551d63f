-- ===== src/Memory/Tests.antt =====
-- A memory map of kernel/src/memory.rs with a gap and a region of the kernel.
use kafka_os.Base.{List, [], ◌∷◌, true, false}
use kafka_os.Memory.{MemoryRegion}

abbrev memory_map : List MemoryRegion
memory_map =
    record { start = 1000; end_addr = 13000; usable = true }
    ∷ record { start = 16384; end_addr = 24576; usable = false }
    ∷ record { start = 24576; end_addr = 32768; usable = true }
    ∷ []
