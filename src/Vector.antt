-- ===== src/Vector.antt =====
-- lib/cvector.c: arrays of pointers that end by NULL.
pub mod Cells
pub mod Items
pub mod Ends
mod Tests
