-- ===== src/Vm/Paging.antt =====
-- What kernel/src/vm.rs takes from the x86_64 crate: the traits `Mapper` and `FrameAllocator`. Their
-- implementations are a parameter; a page and a frame go by the address at which they start.
use kafka_os.Base.{ℕ, ◌≡◌, ◌≢◌, Option, none, some}
use kafka_os.Vm.Area.{PageTableFlags}

pub record Paging : Type 1 where
  pub Tables : Type 0
  pub Frames : Type 0
  -- The leaf entry of a page: its frame and its flags.
  pub entry : Tables → ℕ → Option (ℕ × PageTableFlags)
  pub allocate_frame : Frames → Option (ℕ × Frames)
  -- `none` is an error, which leaves the tables as they were.
  pub unmap : Tables → ℕ → Option Tables
  -- Mapping may take frames for the tables themselves.
  pub map_to : Tables → Frames → ℕ → ℕ → PageTableFlags → Option Tables × Frames
  pub entry-map_to :
      (t t' : Tables) (f : Frames) (page frame : ℕ) (flags : PageTableFlags)
      → (map_to t f page frame flags).0 ≡ some t'
      → entry t' page ≡ some (frame, flags)
  pub entry-map_to_ne :
      (t t' : Tables) (f : Frames) (page frame : ℕ) (flags : PageTableFlags) (other : ℕ)
      → (map_to t f page frame flags).0 ≡ some t'
      → other ≢ page
      → entry t' other ≡ entry t other
  pub entry-unmap : (t t' : Tables) (page : ℕ) → unmap t page ≡ some t' → entry t' page ≡ none
  pub entry-unmap_ne :
      (t t' : Tables) (page other : ℕ)
      → unmap t page ≡ some t'
      → other ≢ page
      → entry t' other ≡ entry t other
