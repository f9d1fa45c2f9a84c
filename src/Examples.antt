-- ===== src/Examples.antt =====
-- The programs under examples, over the models of the libraries that they call.
pub mod Vector
pub mod Queue
pub mod Dictionary
pub mod Multithreaded
pub mod Timestamp
pub mod Commas
pub mod Sysreg
pub mod Printlog
mod Tests
