-- ===== src/Sash.antt =====
-- The stand-alone shell of sash-3.8/: its utilities in utils.c.
pub mod Outcome
pub mod Wildcard
pub mod Mode
pub mod Strings
pub mod Io
pub mod Args
