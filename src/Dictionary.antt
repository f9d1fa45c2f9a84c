-- ===== src/Dictionary.antt =====
-- lib/dictionary.c and includes/dictionary.h: a table from texts to texts, searched linearly.
pub mod Text
pub mod Hash
pub mod Table
pub mod Operations
pub mod Lookup
pub mod Updates
pub mod Invariant
pub mod Laws
pub mod Adding
pub mod Deleting
pub mod Refine
mod Tests
