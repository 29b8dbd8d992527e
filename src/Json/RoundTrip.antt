-- ===== src/Json/RoundTrip.antt =====
-- `parse` reads back what `stringify` writes.
pub mod Containers
pub mod Run
pub mod Elements
pub mod Values
pub mod Whole
