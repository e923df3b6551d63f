-- ===== src/Vm/RefCounts.antt =====
-- Reference counts of physical frames: `FrameRefCounts` of kernel/src/vm.rs. The array of 32768 counters
-- is a function of the index, which is read and written below 32768 only.
use kafka_os.Base.{
  ℕ, ◌+◌, ◌-◌, ◌/◌, ◌≤◌, ◌≡◌, min, Bool, true, false, not, Option, none, some, ltb, ◌==◌,
  if◌then◌else◌, arith, ◌&&◌, leb, ◌⊎◌,
}

abbrev pub max_frames : ℕ
max_frames = 32768

pub record FrameRefCounts : Type 0 where
  pub counts : ℕ → ℕ
  pub base_addr : ℕ
  pub initialized : Bool

unfoldable pub new_counts : FrameRefCounts
new_counts = record { counts = λ _. 0; base_addr = 0; initialized = false }

unfoldable pub init_counts : FrameRefCounts → ℕ → FrameRefCounts
init_counts r base = record r { base_addr = base; initialized = true }

unfoldable pub frame_index : FrameRefCounts → ℕ → Option ℕ
frame_index r phys_addr =
    if not r.initialized
    then none
    else if ltb phys_addr r.base_addr
    then none
    else if ltb ((phys_addr - r.base_addr) / 4096) max_frames
    then some ((phys_addr - r.base_addr) / 4096)
    else none

abbrev set_count : FrameRefCounts → Option ℕ → (ℕ → ℕ) → FrameRefCounts
set_count r none f = r
set_count r (some idx) f = record r {
  counts = λ i. if i == idx then f (r.counts idx) else r.counts i;
}

abbrev read_count : FrameRefCounts → Option ℕ → ℕ
read_count r none = 0
read_count r (some idx) = r.counts idx

-- `saturating_add` and `saturating_sub` on u16.
unfoldable pub increment : FrameRefCounts → ℕ → FrameRefCounts
increment r phys_addr = set_count r (frame_index r phys_addr) (λ c. min (c + 1) 65535)

unfoldable pub decrement : FrameRefCounts → ℕ → FrameRefCounts × ℕ
decrement r phys_addr =
    let s = set_count r (frame_index r phys_addr) (λ c. c - 1) in
    (s, read_count s (frame_index r phys_addr))

unfoldable pub get : FrameRefCounts → ℕ → ℕ
get r phys_addr = read_count r (frame_index r phys_addr)

-- A frame that the table tracks: one of the 128 MiB from the base address on.
abbrev pub tracked : FrameRefCounts → ℕ → Bool
tracked r phys_addr =
    r.initialized && (leb r.base_addr phys_addr && ltb phys_addr (r.base_addr + 134217728))

-- Two frames without a byte in common.
abbrev pub AreApart : ℕ → ℕ → Type 0
AreApart a b = (a + 4096 ≤ b) ⊎ (b + 4096 ≤ a)

pub get-increment :
    (r : FrameRefCounts) (a : ℕ)
    → get (increment r a) a ≡ (if tracked r a then min (get r a + 1) 65535 else 0)
unfolding get increment frame_index
get-increment r a = ground arith

pub get-increment_other :
    (r : FrameRefCounts) (a b : ℕ) → AreApart a b → get (increment r a) b ≡ get r b
unfolding get increment frame_index
get-increment_other r a b h = ground arith

pub get-decrement : (r : FrameRefCounts) (a : ℕ) → get (decrement r a).0 a ≡ get r a - 1
unfolding get decrement frame_index
get-decrement r a = ground arith

pub get-decrement_other :
    (r : FrameRefCounts) (a b : ℕ) → AreApart a b → get (decrement r a).0 b ≡ get r b
unfolding get decrement frame_index
get-decrement_other r a b h = ground arith

pub tracked-decrement : (r : FrameRefCounts) (a b : ℕ) → tracked (decrement r a).0 b ≡ tracked r b
unfolding decrement frame_index
tracked-decrement r a b = ground arith
