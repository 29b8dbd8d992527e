-- ===== src/MetaModel.antt =====
-- The code generator's meta model of the language server protocol: lspgen/lspgen.cpp up to the class
-- `MetaModel`.
pub mod Types
pub mod Extract
pub mod Stops
pub mod Total
pub mod Order
pub mod Model
pub mod Reading
pub mod Names
pub mod Whole
pub mod Messages
pub mod Aliases
