-- ===== src/Connection/RoundTrip.antt =====
-- What `writeMessage` of lsp/connection.cpp writes, `readMessage` reads back.
pub mod Lines
pub mod Fields
pub mod Frames
pub mod Messages
