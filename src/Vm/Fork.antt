-- ===== src/Vm/Fork.antt =====
-- The area lists after a fork: `cow_fork_vmas` of kernel/src/vm.rs.
use kafka_os.Base.{◌≡◌, false, List, [], ◌∷◌}
use mathlib.Core.Option
use kafka_os.Vm.Area.{VmArea, pte_flags_from_vma}

abbrev pub NoneWritable : List VmArea → Type 0
NoneWritable [] = Unit {0}
NoneWritable (v ∷ vs) = ((pte_flags_from_vma v).writable ≡ false) × NoneWritable vs
