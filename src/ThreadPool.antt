-- ===== src/ThreadPool.antt =====
-- `ThreadPool` of lsp/threadpool.h and lsp/threadpool.cpp. A step is one section under the mutex, or a
-- notification between two such sections; the threads that take them are interleaved in any order.
pub mod Pool
pub mod Steps
pub mod Weights
pub mod Invariant
pub mod Tasks
pub mod Finish
