-- ===== src/Splitvt.antt =====
-- The terminal emulation of splitvt/: the window (`Window`), its memory, and the bytes that are
-- written to it.
pub mod Window
pub mod Videomem
pub mod Vt100
mod Tests
