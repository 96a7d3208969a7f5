-- ===== src/Ash/Alias.antt =====
-- ash/alias.c: the alias table. It is an array of chains; a pointer into a chain (`app`) is the
-- part of the chain that it points to. `savestr`, `ckmalloc` and `ckfree` have no effect here:
-- a string is a value, and running out of memory is not modelled. An alias whose text is being
-- read (`ALIASINUSE`) is not freed; it only loses its name.
pub mod Chain
pub mod Table
pub mod Views
pub mod Refines
pub mod Keeps
pub mod Commands
pub mod Listing
pub mod Arguments
mod Tests
