-- ===== src/Ash.antt =====
-- The shell of ash/: how a call ends (`Outcome`), and a module for each file that is modelled.
pub mod Outcome
pub mod Memalloc
pub mod Mystring
pub mod Options
pub mod Alias
pub mod ArithToken
pub mod Arithmetic
pub mod Expand
