-- ===== src/Generator.antt =====
-- The string functions of lspgen/lspgen.cpp and the parts of its class `CppGenerator` that print
-- messages and enumerations.
pub mod Text
pub mod Split
pub mod Enumerations
pub mod Messages
pub mod Stops
pub mod Comment
pub mod Closed
pub mod Printed
