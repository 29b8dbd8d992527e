-- ===== src/Json.antt =====
-- lsp/json.
pub mod Value
pub mod Floats
pub mod Object
pub mod Equality
pub mod Literal
pub mod Cursor
pub mod Scalar
pub mod Parser
pub mod Printer
pub mod RoundTrip
pub mod Tests
