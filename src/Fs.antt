-- ===== src/Fs.antt =====
-- The file system: kernel/src/fs.rs. A name is the list of its characters, a file the list of its bytes.
pub mod Text
pub mod Tar
pub mod Overlay
mod Tests
