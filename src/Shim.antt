-- ===== src/Shim.antt =====
-- The code that is preloaded into the sandboxed process: src/rlbox_process_sandbox_shim.cpp.
pub mod Words
pub mod Memory
pub mod Slots
pub mod Pipe
pub mod Wire
pub mod Worker
pub mod Pool
pub mod Requests
pub mod Testbed
