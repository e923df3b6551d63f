-- ===== src/Gui.antt =====
-- The desktop of kernel/src/gui: the parts that are not drawing.
pub mod Calculator
pub mod Geometry
pub mod Mouse
pub mod Window
pub mod Screen
pub mod Paint
mod Tests
