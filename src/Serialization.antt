-- ===== src/Serialization.antt =====
-- Conversion between JSON values and C++ values: `toJson`, `fromJson` and
-- `canDeserializeTypeFromJson` of lsp/serialization.h, with lsp/nullable.h, lsp/enumeration.h and
-- lsp/strmap.h.
pub mod Serial
pub mod Numbers
pub mod Scalars
pub mod Vectors
pub mod Tuples
pub mod Tables
pub mod Choices
pub mod Structures
pub mod Enumeration
pub mod RoundTrips
