-- ===== src/Connection.antt =====
-- lsp/connection.cpp: messages with headers over a stream, for one thread that reads and, in
-- Writers, several that write.
pub mod Reader
pub mod Header
pub mod Message
pub mod RoundTrip
pub mod Endless
pub mod Writers
