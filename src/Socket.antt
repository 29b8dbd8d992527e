-- ===== src/Socket.antt =====
-- lsp/io/socket.cpp, as built for POSIX. The calls of the operating system are parameters.
pub mod Transfer
pub mod Exact
pub mod Whole
pub mod Open
