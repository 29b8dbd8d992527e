-- ===== src/Uri.antt =====
-- `lsp::Uri` of lsp/uri.h and lsp/uri.cpp.
pub mod Coding
pub mod Record
pub mod Parse
pub mod Coded
pub mod Sections
pub mod Edits
pub mod Views
pub mod Calls
pub mod Range
