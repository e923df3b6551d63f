-- ===== src/Memory/Frames/Order.antt =====
-- The frames that kernel/src/memory.rs gives are whole pages of usable regions, each given once.
use kafka_os.Base.{ℕ, ◌+◌, ◌%◌, ◌≤◌, ◌≡◌, Bool, true, false, ◌&&◌, ◌||◌, List, [], ◌∷◌, leb}
use kafka_os.Memory.{MemoryRegion}

-- A page lies in a usable region of the map.
abbrev pub in_usable : List MemoryRegion → ℕ → Bool
in_usable [] frame = false
in_usable (r ∷ regions) frame =
    (r.usable && (leb r.start frame && leb (frame + 4096) r.end_addr)) || in_usable regions frame

-- The regions follow one another from an address on.
abbrev pub AreSorted : ℕ → List MemoryRegion → Type 0
AreSorted low [] = Unit {0}
AreSorted low (r ∷ regions) =
    (low ≤ r.start) × (r.start ≤ r.end_addr) × AreSorted r.end_addr regions

-- Whole pages of usable regions, from an address on, each behind the one before.
abbrev pub AreFrames : List MemoryRegion → ℕ → List ℕ → Type 0
AreFrames regions low [] = Unit {0}
AreFrames regions low (frame ∷ frames) =
    (low ≤ frame)
    × (frame % 4096 ≡ 0)
    × (in_usable regions frame ≡ true)
    × AreFrames regions (frame + 4096) frames
