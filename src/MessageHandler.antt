-- ===== src/MessageHandler.antt =====
-- `MessageHandler` of lsp/messagehandler.h, lsp/messagehandler.cpp and lsp/messagehandler.inl.
pub mod Ids
pub mod State
pub mod Process
pub mod Send
pub mod Wrappers
pub mod Answers
pub mod Pending
pub mod Async
pub mod Call
pub mod Silent
