-- ===== src/Process.antt =====
-- lsp/process.cpp: a child process with pipes to its standard input and output, as built for POSIX,
-- and the command line of the build for Windows. The calls of the operating system are parameters.
pub mod Child
pub mod Transfer
pub mod Life
pub mod Handles
pub mod Moves
pub mod Closed
pub mod Lifetime
pub mod Exact
pub mod Escape
