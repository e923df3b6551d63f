-- ===== src/Vm.antt =====
-- Virtual memory: kernel/src/vm.rs.
pub mod Area
pub mod AreaList
pub mod Fork
pub mod RefCounts
pub mod Paging
pub mod Fault
mod Tests
